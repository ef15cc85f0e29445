-- ===== src/Api/RateLimiter/Tests.antt =====
-- The limiter under a concrete burst.
use loom_unified_agentic_cod.Base.{ℕ, ◌≤◌, false, List, [], ◌∷◌, arith, length}
use loom_unified_agentic_cod.Api.RateLimiter.Laws.{calls, Ascending, recent, quiet, window_bound}

abbrev burst : List ℕ
burst = 10 ∷ 20 ∷ 25 ∷ 71 ∷ 75 ∷ []

ascending : Ascending 0 burst 75
ascending = (omega arith, (omega arith, (omega arith, (omega arith, (omega arith, omega arith)))))

window_bound_example : length (recent 60 75 (calls false false 2 60 burst quiet).granted) ≤ 2
window_bound_example = window_bound false false 2 60 75 burst ascending
