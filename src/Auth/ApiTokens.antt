-- ===== src/Auth/ApiTokens.antt =====
-- loom/auth/api_tokens.py: the registry of API tokens in its JSONL form. The SHA-256 of `hash_token`, the
-- random token and identifier, and the clock are arguments; `admin` is `_admin_enabled()`, and `writable`
-- is false where the file cannot be opened; a write that fails later, which would leave a part of the file,
-- is left out.
pub mod Laws
pub mod Revocation
pub mod Keyed
mod Tests
use loom_unified_agentic_cod.Base.{
  ℕ, zero, suc, ◌+◌, ◌-◌, ◌*◌, ◌/◌, ◌%◌, ◌^◌, min, max, ◌≤◌, ◌<◌, ◌≡◌, refl, sym, ap, subst, ◌∙◌,
  ◌≢◌, ◌↔◌, ◌⊎◌, inl, inr, Bool, true, false, not, ◌&&◌, ◌||◌, Option, none, some, List, [], ◌∷◌,
  ◌++◌, map, append-nil, append_assoc, arith, ltb, leb, ◌==◌, if◌then◌else◌, ltb→lt, lt→ltb, leb→le,
  le→leb, ==_iff, tests, if_both, if_cases, Bool-cases, Option-cases, is_some, is_none, contains,
  Distinct, contains-append, Distinct-snoc, length, select, any_of, all_of, sum_of, All,
  length-append, length-select-le, sum_of-append, select-append,
}
use loom_unified_agentic_cod.Base.Dict.{Dict, lookup, insert, values}
use loom_unified_agentic_cod.Auth.Context.{
  AuthState, AuthenticatedPrincipal, Env, prod, production, api_token, set_principal,
  clear_principal,
}

-- The label and the prefix are not read again and are left out.
pub record ApiTokenRecord : Type 0 where
  pub id : ℕ
  pub user_id : ℕ
  pub org_id : ℕ
  pub token_hash : ℕ
  pub active : Bool
  pub revoked_at : Option ℕ
  pub created_at : ℕ
  pub expires_at : Option ℕ

-- `_admin_enabled`; the flag says whether `LOOM_TOKEN_ADMIN_ENABLED` is one of "1", "true", "yes".
abbrev pub admin_enabled : Env → Bool → Bool
admin_enabled prod flag = flag
admin_enabled production flag = flag
admin_enabled _ flag = true

abbrev at_least : Option ℕ → ℕ → Bool
at_least none now = false
at_least (some limit) now = leb limit now

abbrev pub is_expired : ApiTokenRecord → ℕ → Bool
is_expired r now = at_least r.expires_at now

-- A line of `api_tokens.jsonl`: blank or unreadable, or a record.
pub data TokenLine : Type 0 where
  unreadable : TokenLine
  readable : ApiTokenRecord → TokenLine

pub record ApiTokenStore : Type 0 where
  pub records : Dict ApiTokenRecord
  pub file : List TokenLine

lines_of : List ApiTokenRecord → List TokenLine
lines_of [] = []
lines_of (r ∷ rs) = readable r ∷ lines_of rs

pub persist : Bool → ApiTokenStore → ApiTokenStore
unfolding lines_of
persist writable s = if writable then record s { file = lines_of (values s.records) } else s

abbrev pub deactivate : ℕ → ApiTokenRecord → ApiTokenRecord
deactivate now r = record r { active = false; revoked_at = some now }

-- One line of `_load`; the flag is `changed`.
load_line : ℕ → TokenLine → Dict ApiTokenRecord × Bool → Dict ApiTokenRecord × Bool
load_line now unreadable s = s
load_line now (readable r) (d, changed) =
    if r.active && is_expired r now
    then (insert r.id (deactivate now r) d, true)
    else (insert r.id r d, changed)

load_lines : ℕ → List TokenLine → Dict ApiTokenRecord × Bool → Dict ApiTokenRecord × Bool
unfolding load_line
load_lines now [] s = s
load_lines now (l ∷ ls) s = load_lines now ls (load_line now l s)

-- `ApiTokenStore(storage_dir)` over a file.
pub load : Bool → ℕ → List TokenLine → ApiTokenStore
unfolding persist load_lines
load writable now file =
    let (d, changed) = load_lines now file ([], false) in
    let s : ApiTokenStore = record { records = d; file = file } in
    if changed then persist writable s else s

pub data Issued : Type 0 where
  administration_disabled bad_ttl : Issued
  issued : ApiTokenRecord → Issued

-- The result of `_ttl_seconds` is `none` where it raises; a lifetime of zero never expires.
abbrev pub expiry : ℕ → ℕ → Option ℕ
expiry created zero = none
expiry created ttl = some (created + ttl)

module _ (hash_token : ℕ → ℕ) where
  abbrev pub new_record : ℕ → ℕ → ℕ → ℕ → ℕ → ℕ → ApiTokenRecord
  new_record id token user org now ttl = record {
    id = id;
    user_id = user;
    org_id = org;
    token_hash = hash_token token;
    active = true;
    revoked_at = none;
    created_at = now;
    expires_at = expiry now ttl;
  }

  issue_with : Option ℕ → Bool → ℕ → ℕ → ℕ → ℕ → ℕ → ApiTokenStore → Issued × ApiTokenStore
  unfolding persist
  issue_with none writable id token user org now s = (bad_ttl, s)
  issue_with (some ttl) writable id token user org now s =
      let r = new_record id token user org now ttl in
      (issued r, persist writable (record s { records = insert id r s.records }))

  pub issue : Bool → Option ℕ → Bool → ℕ → ℕ → ℕ → ℕ → ℕ → ApiTokenStore → Issued × ApiTokenStore
  unfolding issue_with
  issue admin ttl writable id token user org now s =
      if admin
      then issue_with ttl writable id token user org now s
      else (administration_disabled, s)

  -- The condition of the loop of `verify`.
  abbrev pub accepts : ℕ → ℕ → ApiTokenRecord → Bool
  accepts token now r = r.active && not (is_expired r now) && r.token_hash == hash_token token

  abbrev pub principal_of : ApiTokenRecord → AuthenticatedPrincipal
  principal_of r = record {
    user_id = r.user_id;
    org_id = r.org_id;
    token_id = some r.id;
    auth_method = api_token;
  }

  -- The first entry that passes a test.
  abbrev pub first : (ApiTokenRecord → Bool) → List ApiTokenRecord → Option ApiTokenRecord
  first p [] = none
  first p (x ∷ xs) = if p x then some x else first p xs

  accepted : Option ApiTokenRecord → AuthState → Option ApiTokenRecord × AuthState
  accepted none a = (none, a)
  accepted (some r) a =
      (some r, if a.request_auth_context then set_principal (principal_of r) a else a)

  pub verify : ℕ → ℕ → ApiTokenStore → AuthState → Option ApiTokenRecord × AuthState
  unfolding accepted
  verify token now s a =
      accepted (first (accepts token now) (values s.records))
        (if a.request_auth_context then clear_principal a else a)

-- A change of the record that a key names, in place.
pub modify : ℕ → (ApiTokenRecord → ApiTokenRecord) → Dict ApiTokenRecord → Dict ApiTokenRecord
modify k f [] = []
modify k f ((j, r) ∷ d) = (j, if k == j then f r else r) ∷ modify k f d

abbrev is_active : Option ApiTokenRecord → Bool
is_active none = false
is_active (some r) = r.active

-- `none` where the operation is disabled.
pub revoke : Bool → Bool → ℕ → ℕ → ApiTokenStore → Option Bool × ApiTokenStore
unfolding persist modify
revoke admin writable now id s =
    if not admin
    then (none, s)
    else if not (is_active (lookup id s.records))
    then (some false, s)
    else (some true, persist writable (record s { records = modify id (deactivate now) s.records }))

abbrev owned : ℕ → ApiTokenRecord → Bool
owned user r = r.user_id == user && r.active

-- The loop of `revoke_all_for_user`.
revoke_owned : ℕ → ℕ → Dict ApiTokenRecord → ℕ × Dict ApiTokenRecord
revoke_owned now user [] = (0, [])
revoke_owned now user ((k, r) ∷ d) =
    let (n, d') = revoke_owned now user d in
    if owned user r then (suc n, (k, deactivate now r) ∷ d') else (n, (k, r) ∷ d')

pub revoke_all_for_user : Bool → Bool → ℕ → ℕ → ApiTokenStore → Option ℕ × ApiTokenStore
unfolding persist revoke_owned
revoke_all_for_user admin writable now user s =
    let (n, d) = revoke_owned now user s.records in
    let s' : ApiTokenStore = record s { records = d } in
    if not admin then (none, s) else (some n, if ltb 0 n then persist writable s' else s')

abbrev matches : Option ℕ → ℕ → Bool
matches none x = true
matches (some y) x = x == y

pub list_active : Bool → ℕ → Option ℕ → Option ℕ → ApiTokenStore → Option (List ApiTokenRecord)
list_active admin now org user s =
    if admin
    then some (
        select
          (λ r.
            r.active && not (is_expired r now) && matches org r.org_id && matches user r.user_id)
          (values s.records))
    else none

pub list_active_for_user : Bool → ℕ → ℕ → ApiTokenStore → Option (List ApiTokenRecord)
list_active_for_user admin now user s =
    if admin
    then some
        (select (λ r. r.user_id == user && r.active && not (is_expired r now)) (values s.records))
    else none

-- `sum(1 for r in ... if ...)`
pub count : ℕ → ApiTokenStore → ℕ
count now s = sum_of (λ r. if r.active && not (is_expired r now) then 1 else 0) (values s.records)
