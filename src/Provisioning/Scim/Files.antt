-- ===== src/Provisioning/Scim/Files.antt =====
-- loom/scim/provisioning.py: the start of a provisioner from its files.
use loom_unified_agentic_cod.Base.{
  ℕ, ◌≡◌, refl, sym, ap, subst, ◌∙◌, true, false, ◌||◌, Option, none, some, List, [], ◌∷◌, ◌++◌,
  append-nil, append_assoc, arith, ◌==◌, contains,
}
use loom_unified_agentic_cod.Base.Dict.{Dict, insert, keys}
use loom_unified_agentic_cod.Provisioning.Scim.{
  ScimUser, ScimGroup, DeprovisionTask, ScimFiles, ScimProvisioner, Moment, persist, lines_of,
}
use loom_unified_agentic_cod.Business.Entitlements.{EntitlementService}
use loom_unified_agentic_cod.Business.AuditLog.{AuditLogger}
use loom_unified_agentic_cod.Auth.ApiTokens.{ApiTokenStore}

-- One file of `_load`; `id` is the identifier of its resources.
abbrev pub load_items {ℓ} : {A : Type ℓ} → (A → ℕ) → List (Option A) → Dict A → Dict A
load_items id [] d = d
load_items id (none ∷ ls) d = load_items id ls d
load_items id (some x ∷ ls) d = load_items id ls (insert (id x) x d)

-- `ScimProvisioner(storage_dir, entitlements)`
pub load : ScimFiles → EntitlementService → ApiTokenStore → AuditLogger → ScimProvisioner
load fs es tokens audit = record {
  users = load_items (λ (u : ScimUser). u.id) fs.users_file [];
  groups = load_items (λ (g : ScimGroup). g.id) fs.groups_file [];
  deprovisions = load_items (λ (t : DeprovisionTask). t.id) fs.depro_file [];
  entitlements = es;
  files = fs;
  tokens = tokens;
  audit = audit;
}

-- Every resource stands under its own identifier, and no identifier twice.
abbrev pub IsIndex {ℓ} : {A : Type ℓ} → (A → ℕ) → Dict A → Type 0
IsIndex id [] = Unit {0}
IsIndex id ((k, x) ∷ d) = (id x ≡ k) × (contains k (keys d) ≡ false) × IsIndex id d

module _ {ℓ} {A : Type ℓ} (id : A → ℕ) where
  contains-insert :
      (j k : ℕ) (x : A) (d : Dict A)
      → contains j (keys (insert k x d)) ≡ (j == k || contains j (keys d))
  contains-insert j k x [] = refl
  contains-insert j k x ((i, y) ∷ d) = ground (arith, contains-insert j k x d)

  insert-IsIndex : (x : A) (d : Dict A) → IsIndex id d → IsIndex id (insert (id x) x d)
  insert-IsIndex x [] h = (refl, refl, tt)
  insert-IsIndex x ((i, y) ∷ d) h =
      ground (arith, insert-IsIndex x d h.2, contains-insert i (id x) x d)

  keys-append :
      (j : ℕ) (c d : Dict A)
      → contains j (keys (c ++ d)) ≡ (contains j (keys c) || contains j (keys d))
  keys-append j [] d = refl
  keys-append j ((i, y) ∷ c) d = ground (arith, keys-append j c d)

  insert-new :
      (k : ℕ) (x : A) (d : Dict A) → contains k (keys d) ≡ false → insert k x d ≡ d ++ (k, x) ∷ []
  insert-new k x [] h = refl
  insert-new k x ((i, y) ∷ d) h = ground (arith, insert-new k x d)

  Index-before :
      (acc : Dict A) (k : ℕ) (x : A) (d : Dict A)
      → IsIndex id (acc ++ (k, x) ∷ d)
      → (id x ≡ k) × (contains k (keys acc) ≡ false)
  Index-before [] k x d h = (h.0, refl)
  Index-before ((j, y) ∷ acc) k x d h =
      let (e, n) = Index-before acc k x d h.2 in
      (e, ground (arith, keys-append j acc ((k, x) ∷ d), n, h.1))

  load-lines : (d acc : Dict A) → IsIndex id (acc ++ d) → load_items id (lines_of d) acc ≡ acc ++ d
  load-lines [] acc h = sym (append-nil acc)
  load-lines ((k, x) ∷ d) acc h =
      let (e, n) = Index-before acc k x d h in
      let eq = append_assoc acc ((k, x) ∷ []) d in
      ap (λ j. load_items id (lines_of d) (insert j x acc)) e
      ∙ ap (load_items id (lines_of d)) (insert-new k x acc n)
      ∙ load-lines d (acc ++ (k, x) ∷ []) (subst (IsIndex id) (sym eq) h)
      ∙ eq

-- A provisioner whose resources stand under their identifiers is given back by a restart, once its files
-- are written: the same users, groups and tasks, in their order.
pub persist-load :
    (m : Moment) (s : ScimProvisioner)
    → m.writable ≡ true
    → IsIndex (λ (u : ScimUser). u.id) s.users
    → IsIndex (λ (g : ScimGroup). g.id) s.groups
    → IsIndex (λ (t : DeprovisionTask). t.id) s.deprovisions
    → let s' = load (persist m s).files s.entitlements s.tokens s.audit in
      (s'.users ≡ s.users) × (s'.groups ≡ s.groups) × (s'.deprovisions ≡ s.deprovisions)
unfolding persist load
persist-load m s w hu hg ht = rw (w) (
  load-lines (λ (u : ScimUser). u.id) s.users [] hu,
  load-lines (λ (g : ScimGroup). g.id) s.groups [] hg,
  load-lines (λ (t : DeprovisionTask). t.id) s.deprovisions [] ht,
)
