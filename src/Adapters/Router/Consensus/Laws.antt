-- ===== src/Adapters/Router/Consensus/Laws.antt =====
-- When a consensus passes.
use loom_unified_agentic_cod.Base.{
  ℕ, suc, Bool, true, ◌&&◌, List, [], ◌∷◌, ◌==◌, if◌then◌else◌, all_of,
}

-- Counts the entry of a patch, by its number and its intent.
abbrev pub is_entry : ℕ → ℕ → ℕ × ℕ → ℕ
is_entry k i e = if e.0 == k && e.1 == i then 1 else 0

-- The patches with their numbers.
abbrev pub numbered : ℕ → List ℕ → List (ℕ × ℕ)
numbered n [] = []
numbered n (i ∷ is) = (n, i) ∷ numbered (suc n) is

module _ (similar : ℕ → ℕ → Bool) where
  -- Every patch of the group is similar to its first.
  abbrev pub coherent : List (ℕ × ℕ) → Bool
  coherent [] = true
  coherent (base ∷ g) = all_of (λ e. similar base.1 e.1) g
