-- ===== src/Context/Budget.antt =====
-- `ContextBudgetManager.assemble_context` of loom/context/budget.py: which symbols and memories go into the prompt,
-- and the tokens counted. A text is known by its length; the symbols come ranked, each with the length of
-- its signature and of its file's wrapped content.
pub mod Laws
mod Tests
use loom_unified_agentic_cod.Base.{
  ℕ, zero, suc, ◌+◌, ◌-◌, ◌*◌, ◌/◌, ◌%◌, ◌^◌, min, max, ◌≤◌, ◌<◌, ◌≡◌, refl, sym, ap, subst, ◌∙◌,
  ◌≢◌, ◌↔◌, ◌⊎◌, inl, inr, Bool, true, false, not, ◌&&◌, ◌||◌, Option, none, some, List, [], ◌∷◌,
  ◌++◌, map, append-nil, append_assoc, arith, ltb, leb, ◌==◌, if◌then◌else◌, ltb→lt, lt→ltb, leb→le,
  le→leb, ==_iff, tests, if_both, if_cases, Bool-cases, Option-cases, is_some, is_none, contains,
  Distinct, contains-append, Distinct-snoc, length, select, any_of, all_of, sum_of, All,
  length-append, length-select-le, sum_of-append, select-append,
}

-- `estimate_tokens`, of a text's length.
abbrev pub estimate_tokens : ℕ → ℕ
estimate_tokens n = max 1 (n / 4)

-- The lengths of `sig_doc` and of `body_text`.
pub record Candidate : Type 0 where
  pub signature : ℕ
  pub body : ℕ

abbrev pub signature_tokens : Candidate → ℕ
signature_tokens c = estimate_tokens c.signature

-- The entry with the body, a line break between them.
abbrev pub full_tokens : Candidate → ℕ
full_tokens c = estimate_tokens (c.signature + 1 + c.body)

-- The entry with the note that the body is omitted.
abbrev pub omitted_tokens : Candidate → ℕ
omitted_tokens c = estimate_tokens (c.signature + 40)

pub data Fate : Type 0 where
  in_full body_omitted_budget budget_exhausted : Fate

-- The loop's body: what becomes of a symbol, and the tokens used behind it.
pub place : ℕ → ℕ → Candidate → Fate × ℕ
place budget used c =
    if leb budget used
    then (budget_exhausted, used)
    else if leb (signature_tokens c * 2) (budget - used)
    then (in_full, used + full_tokens c)
    else if leb (signature_tokens c) (budget - used)
    then (body_omitted_budget, used + omitted_tokens c)
    else (budget_exhausted, used)

pub place_all : ℕ → ℕ → List Candidate → List Fate × ℕ
unfolding place
place_all budget used [] = ([], used)
place_all budget used (c ∷ cs) =
    let (f, used') = place budget used c in
    let (fs, total) = place_all budget used' cs in (f ∷ fs, total)

abbrev pub is_truncated : Fate → Bool
is_truncated in_full = false
is_truncated _ = true

pub truncated_count : List Fate → ℕ
truncated_count [] = 0
truncated_count (f ∷ fs) = if is_truncated f then suc (truncated_count fs) else truncated_count fs

abbrev pub header_tokens : ℕ
header_tokens = estimate_tokens 32

abbrev pub system_tokens : ℕ
system_tokens = estimate_tokens 290

-- The loop over the memory snippets, each with "- " before it, which breaks at the first that does not fit.
pub add_memory : ℕ → ℕ → List ℕ → ℕ
add_memory budget used [] = used
add_memory budget used (line ∷ lines) =
    let tokens = estimate_tokens (2 + line) in
    let rest = add_memory budget (used + tokens) lines in
    if leb (used + tokens) budget then rest else used

pub memory_tokens : ℕ → List ℕ → ℕ
unfolding add_memory
memory_tokens budget [] = 0
memory_tokens budget (line ∷ lines) = add_memory budget header_tokens (line ∷ lines)

-- `budget_limits`
pub record Limits : Type 0 where
  pub system : ℕ
  pub symbols : ℕ
  pub memory : ℕ
  pub total : ℕ

-- What exceeds the system's share is taken from the symbols.
abbrev pub symbol_budget : Limits → ℕ
symbol_budget l =
    if ltb l.system system_tokens then l.symbols - (system_tokens - l.system) else l.symbols

pub record BudgetAssembly : Type 0 where
  pub total_tokens_used : ℕ
  pub budget_limit : ℕ
  pub fates : List Fate
  pub truncated : ℕ
  pub headroom_remaining : ℕ

-- The length of the task, the ranked symbols and the lengths of the memory snippets.
pub assemble_context : Limits → ℕ → List Candidate → List ℕ → BudgetAssembly
unfolding place_all truncated_count memory_tokens
assemble_context l task ranked snippets =
    let (fates, used) = place_all (symbol_budget l) 0 ranked in
    let total = system_tokens + memory_tokens l.memory snippets + used + estimate_tokens task in
    record {
      total_tokens_used = total;
      budget_limit = l.total;
      fates = fates;
      truncated = truncated_count fates;
      headroom_remaining = l.total - total;
    }
