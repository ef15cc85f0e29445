-- ===== src/Adapters/Router/Consensus.antt =====
-- loom/adapters/router.py: whether several patches agree. The intents of patches, and whether two are
-- similar, are arguments.
pub mod Laws
use loom_unified_agentic_cod.Base.{
  ℕ, zero, suc, ◌+◌, ◌-◌, ◌*◌, ◌/◌, ◌%◌, ◌^◌, min, max, ◌≤◌, ◌<◌, ◌≡◌, refl, sym, ap, subst, ◌∙◌,
  ◌≢◌, ◌↔◌, ◌⊎◌, inl, inr, Bool, true, false, not, ◌&&◌, ◌||◌, Option, none, some, List, [], ◌∷◌,
  ◌++◌, map, append-nil, append_assoc, arith, ltb, leb, ◌==◌, if◌then◌else◌, ltb→lt, lt→ltb, leb→le,
  le→leb, ==_iff, tests, if_both, if_cases, Bool-cases, Option-cases, is_some, is_none, contains,
  Distinct, contains-append, Distinct-snoc, length, select, any_of, all_of, sum_of, All,
  length-append, length-select-le, sum_of-append, select-append,
}

pub record ConsensusResult : Type 0 where
  pub required_patches : ℕ
  pub agreed_model_ids : List ℕ
  pub passed : Bool

pub data ConsensusMode : Type 0 where
  always_on off auto : ConsensusMode

-- `classify_patch_risk` is the argument.
pub needs_consensus : Bool → ConsensusMode → Bool
needs_consensus risk always_on = true
needs_consensus risk off = false
needs_consensus risk auto = risk

-- A group begins with its base; entries are indices with their intents.
abbrev pub Entry : Type 0
Entry = ℕ × ℕ

module _ (similar : ℕ → ℕ → Bool) where
  abbrev fits : Entry → List Entry → Bool
  fits e [] = false
  fits e (base ∷ g) = similar base.1 e.1

  -- The entry goes to the first group whose base is similar, or begins a new one.
  pub add_to_group : Entry → List (List Entry) → List (List Entry)
  add_to_group e [] = (e ∷ []) ∷ []
  add_to_group e (g ∷ gs) =
      let rest = add_to_group e gs in if fits e g then (g ++ e ∷ []) ∷ gs else g ∷ rest

  pub group_all : ℕ → List ℕ → List (List Entry) → List (List Entry)
  unfolding add_to_group
  group_all n [] gs = gs
  group_all n (i ∷ is) gs = group_all (suc n) is (add_to_group (n, i) gs)

  -- `max(agreement_groups, key=len)`: the first of the longest.
  pub longest : List Entry → List (List Entry) → List Entry
  longest best [] = best
  longest best (g ∷ gs) = longest (if ltb (length best) (length g) then g else best) gs

  indices : List Entry → List ℕ
  indices [] = []
  indices (e ∷ es) = e.0 ∷ indices es

  -- `primary` is the name of the only patch.
  pub verify_consensus : ℕ → List ℕ → ℕ → ConsensusResult
  unfolding group_all longest indices
  verify_consensus primary intents required =
      if ltb (length intents) required
      then record { required_patches = required; agreed_model_ids = []; passed = false }
      else if ltb (length intents) 2
      then record {
        required_patches = required;
        agreed_model_ids = primary ∷ [];
        passed = leb required 1;
      }
      else (let best = longest [] (group_all 0 intents []) in
          record {
            required_patches = required;
            agreed_model_ids = indices best;
            passed = leb required (length best);
          })
