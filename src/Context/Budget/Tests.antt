-- ===== src/Context/Budget/Tests.antt =====
-- A prompt whose one symbol has a long file.
use loom_unified_agentic_cod.Base.{◌+◌, ◌≤◌, ◌≡◌, refl, true, List, [], ◌∷◌, arith, ltb}
use loom_unified_agentic_cod.Context.Budget.{
  Candidate, Limits, place, place_all, system_tokens, estimate_tokens, truncated_count, add_memory,
  memory_tokens, symbol_budget, assemble_context,
}
use loom_unified_agentic_cod.Context.Budget.Laws.{AtMost, assemble-le}

abbrev limits : Limits
limits = record { system = 100; symbols = 50; memory = 40; total = 300 }

abbrev long_file : Candidate
long_file = record { signature = 20; body = 8000 }

abbrev short_file : Candidate
short_file = record { signature = 20; body = 60 }

abbrev prompt : List Candidate
prompt = short_file ∷ long_file ∷ short_file ∷ []

-- The total passes the limit of 300 though the symbols had 50.
over_limit :
    ltb 2000 (assemble_context limits 80 prompt (40 ∷ 120 ∷ 5 ∷ [])).total_tokens_used ≡ true
unfolding assemble_context place_all place truncated_count memory_tokens add_memory
over_limit = refl

at_most : AtMost 2005 prompt
at_most =
    ((omega arith, omega arith), ((omega arith, omega arith), ((omega arith, omega arith), tt)))

assemble-le_example :
    (assemble_context limits 80 prompt (40 ∷ 120 ∷ 5 ∷ [])).total_tokens_used
    ≤ system_tokens + 40 + (symbol_budget limits + 2005) + estimate_tokens 80
assemble-le_example = assemble-le limits 80 2005 prompt (40 ∷ 120 ∷ 5 ∷ []) (omega arith) at_most
