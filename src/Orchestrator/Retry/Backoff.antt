-- ===== src/Orchestrator/Retry/Backoff.antt =====
-- `_compute_backoff` of loom/orchestrator/task_graph.py with the constants of that file. Delays are in
-- units of 10⁻⁶ ms: the base of 5 s doubles up to 60 s, and 30 % of jitter is `capped * 0.3 * (2r - 1)`
-- for a random `r`, given in thousandths.
use loom_unified_agentic_cod.Base.{ℕ, ◌+◌, ◌*◌, ◌^◌, min, ◌≤◌, ◌<◌, arith}

abbrev pub retry_base_ms : ℕ
retry_base_ms = 5000

abbrev pub retry_max_ms : ℕ
retry_max_ms = 60000

-- `min(retry_base * retry_factor ** attempt, retry_max)`, in milliseconds.
pub capped_delay : ℕ → ℕ
capped_delay attempt = min (retry_base_ms * 2 ^ attempt) retry_max_ms

-- `capped + capped * 0.3 * (2r - 1)`, which is `capped * (0.7 + 0.6 r)`.
pub compute_backoff : ℕ → ℕ → ℕ
unfolding capped_delay
compute_backoff attempt r = capped_delay attempt * (700000 + 600 * r)

capped_delay-le : (attempt : ℕ) → capped_delay attempt ≤ 60000
unfolding capped_delay
capped_delay-le attempt = omega arith

scaled : (c k lo hi : ℕ) → lo ≤ k → k ≤ hi → (lo * c ≤ c * k) × (c * k ≤ hi * c)
scaled c k lo hi h l = (grind arith, grind arith)

-- For a random number below one the delay lies within 30 % of the capped one, and never passes 78 s.
pub backoff_bounds :
    (attempt r : ℕ)
    → r < 1000
    → (700000 * capped_delay attempt ≤ compute_backoff attempt r)
      × (compute_backoff attempt r ≤ 1300000 * capped_delay attempt)
      × (compute_backoff attempt r ≤ 78000 * 1000000)
unfolding compute_backoff
backoff_bounds attempt r h =
    let c : ℕ = capped_delay attempt in
    let (low, high) = scaled c (700000 + 600 * r) 700000 1300000 (omega arith) (omega arith) in
    (low, high, omega (arith, high, capped_delay-le attempt))
