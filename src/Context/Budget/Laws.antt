-- ===== src/Context/Budget/Laws.antt =====
-- How far the tokens of a prompt can go beyond its budget.
use loom_unified_agentic_cod.Base.{ℕ, ◌+◌, ◌≤◌, List, [], ◌∷◌, arith, All}
use loom_unified_agentic_cod.Context.Budget.{
  Candidate, full_tokens, omitted_tokens, header_tokens, system_tokens, estimate_tokens, place,
  place_all, add_memory, memory_tokens, Limits, symbol_budget, assemble_context,
}

-- No entry of a symbol has more tokens than a bound.
abbrev pub AtMost : ℕ → List Candidate → Type 0
AtMost bound = All (λ c. (full_tokens c ≤ bound) × (omitted_tokens c ≤ bound))

place-le :
    (budget used bound : ℕ) (c : Candidate)
    → (full_tokens c ≤ bound) × (omitted_tokens c ≤ bound)
    → used ≤ budget + bound
    → (place budget used c).1 ≤ budget + bound
unfolding place
place-le budget used bound c h u = ground arith

place_all-le :
    (budget used bound : ℕ) (cs : List Candidate)
    → AtMost bound cs
    → used ≤ budget + bound
    → (place_all budget used cs).1 ≤ budget + bound
unfolding place_all
place_all-le budget used bound [] h u = u
place_all-le budget used bound (c ∷ cs) h u =
    place_all-le budget (place budget used c).1 bound cs (h.1)
      (place-le budget used bound c (h.0) u)

add_memory-le :
    (budget used : ℕ) (lines : List ℕ) → used ≤ budget → add_memory budget used lines ≤ budget
unfolding add_memory
add_memory-le budget used [] h = h
add_memory-le budget used (l ∷ ls) h =
    ground (arith, add_memory-le budget (used + estimate_tokens (2 + l)) ls)

memory-le :
    (budget : ℕ) (lines : List ℕ) → header_tokens ≤ budget → memory_tokens budget lines ≤ budget
unfolding memory_tokens
memory-le budget [] h = omega arith
memory-le budget (l ∷ ls) h = add_memory-le budget header_tokens (l ∷ ls) h

-- Where the memory's header fits and no entry of a symbol has more tokens than a bound, the tokens of a
-- prompt are at most those of the system prompt and the task, the two budgets, and one such entry: the
-- last symbol taken can pass the symbols' budget, by no more than its entry.
pub assemble-le :
    (l : Limits) (task bound : ℕ) (ranked : List Candidate) (snippets : List ℕ)
    → header_tokens ≤ l.memory
    → AtMost bound ranked
    → (assemble_context l task ranked snippets).total_tokens_used
      ≤ system_tokens + l.memory + (symbol_budget l + bound) + estimate_tokens task
unfolding assemble_context
assemble-le l task bound ranked snippets m h = omega (
  arith,
  memory-le l.memory snippets m,
  place_all-le (symbol_budget l) 0 bound ranked h (omega arith),
)
