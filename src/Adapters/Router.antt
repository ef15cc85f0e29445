-- ===== src/Adapters/Router.antt =====
-- loom/adapters/router.py: the choice of a model. Names of models are numbers, those of "auto" and "mock"
-- given; `says_auto` is whether the lower-cased name is "auto". The weighted sum of a score is floating
-- point, and can be negative; it is an argument, a number, and the number `origin` stands for the score 0.0,
-- since only the order of scores matters. The rate of errors is compared exactly.
pub mod Consensus
pub mod Laws
mod Tests
use loom_unified_agentic_cod.Base.{
  ℕ, zero, suc, ◌+◌, ◌-◌, ◌*◌, ◌/◌, ◌%◌, ◌^◌, min, max, ◌≤◌, ◌<◌, ◌≡◌, refl, sym, ap, subst, ◌∙◌,
  ◌≢◌, ◌↔◌, ◌⊎◌, inl, inr, Bool, true, false, not, ◌&&◌, ◌||◌, Option, none, some, List, [], ◌∷◌,
  ◌++◌, map, append-nil, append_assoc, arith, ltb, leb, ◌==◌, if◌then◌else◌, ltb→lt, lt→ltb, leb→le,
  le→leb, ==_iff, tests, if_both, if_cases, Bool-cases, Option-cases, is_some, is_none, contains,
  Distinct, contains-append, Distinct-snoc, length, select, any_of, all_of, sum_of, All,
  length-append, length-select-le, sum_of-append, select-append,
}
use loom_unified_agentic_cod.Base.Dict.{Dict, lookup, insert}

pub data TaskType : Type 0 where
  onboarding reproduction planning patching verifying reviewing : TaskType

pub data RouterEventType : Type 0 where
  success failure timeout : RouterEventType

pub record RouterEvent : Type 0 where
  pub model : ℕ
  pub task_type : TaskType
  pub event_type : RouterEventType
  pub latency_ms : ℕ
  pub timestamp : ℕ

-- The nodes whose model is in the map are those of `TaskType`.
pub record ModelRouter : Type 0 where
  pub default_model : ℕ
  pub mock_mode : Bool
  pub auto_route : Bool
  pub eligible_models : List ℕ
  pub events : List RouterEvent
  pub model_quota_headroom : Dict ℕ
  pub node_model_map : Dict ℕ

abbrev pub auto : ℕ
auto = 0

abbrev pub mock : ℕ
mock = 1

abbrev events_window_size : ℕ
events_window_size = 200

abbrev error_rate_window_seconds : ℕ
error_rate_window_seconds = 300

set_all : ℕ → Dict ℕ → Dict ℕ
set_all v [] = []
set_all v ((k, w) ∷ d) = (k, v) ∷ set_all v d

abbrev add_eligible : ℕ → List ℕ → List ℕ
add_eligible m ms = if contains m ms || m == mock then ms else ms ++ m ∷ []

pub set_eligible_models : List ℕ → ModelRouter → ModelRouter
set_eligible_models ms r = record r { eligible_models = ms }

pub set_quota_headroom : ℕ → ℕ → ModelRouter → ModelRouter
set_quota_headroom m tokens r = record r {
  model_quota_headroom = insert m tokens r.model_quota_headroom;
}

abbrev drop_oldest : List RouterEvent → List RouterEvent
drop_oldest [] = []
drop_oldest (x ∷ xs) = xs

-- `deque(maxlen=200)`
pub record_event : RouterEvent → ModelRouter → ModelRouter
record_event e r =
    let kept =
      if leb events_window_size (length r.events) then drop_oldest r.events else r.events in
    record r { events = kept ++ e ∷ [] }

-- `(now - e.timestamp) <= ERROR_RATE_WINDOW_SECONDS`
abbrev is_recent : ℕ → ℕ → RouterEvent → Bool
is_recent now m e = e.model == m && leb now (e.timestamp + error_rate_window_seconds)

abbrev is_error : RouterEvent → Bool
is_error e = elim e.event_type [ success ↦ false | failure ↦ true | timeout ↦ true ]

-- `_provider_error_rate(model) > 0.10`
pub is_provider_unhealthy : ℕ → ℕ → ModelRouter → Bool
is_provider_unhealthy now m r =
    let recent = select (is_recent now m) r.events in
    ltb (length recent) (10 * length (select is_error recent))

abbrev pub exhausted : Option ℕ → Bool
exhausted none = false
exhausted (some tokens) = tokens == 0

module _ (says_auto : ℕ → Bool) where
  pub set_model : ℕ → ModelRouter → ModelRouter
  unfolding set_all
  set_model m r = record r {
    default_model = m;
    auto_route = says_auto m;
    eligible_models = if says_auto m then r.eligible_models else add_eligible m r.eligible_models;
    node_model_map = set_all m r.node_model_map;
  }

module _ (origin : ℕ) (weighted : ℕ → ModelRouter → ℕ → TaskType → ℕ) where
  pub score_model : ℕ → ModelRouter → ℕ → TaskType → ℕ
  unfolding is_provider_unhealthy
  score_model now r m task =
      if is_provider_unhealthy now m r || exhausted (lookup m r.model_quota_headroom)
      then origin
      else weighted now r m task

  -- The stable sort by falling score, an entry at a time.
  pub insert_ranked : ℕ × ℕ → List (ℕ × ℕ) → List (ℕ × ℕ)
  insert_ranked x [] = x ∷ []
  insert_ranked x (y ∷ ys) =
      let rest = insert_ranked x ys in if leb y.1 x.1 then x ∷ y ∷ ys else y ∷ rest

  pub sort_ranked : List (ℕ × ℕ) → List (ℕ × ℕ)
  unfolding insert_ranked
  sort_ranked [] = []
  sort_ranked (x ∷ xs) = insert_ranked x (sort_ranked xs)

  scored : ℕ → ModelRouter → TaskType → List ℕ → List (ℕ × ℕ)
  scored now r task [] = []
  scored now r task (m ∷ ms) = (m, score_model now r m task) ∷ scored now r task ms

  -- The candidates, which are the default model where there are none.
  abbrev pub candidates : List ℕ → ModelRouter → List ℕ
  candidates excluded r =
      let cs = select (λ m. not (contains m excluded)) r.eligible_models in
      elim cs [ [] ↦ r.default_model ∷ [] | c ∷ rest ↦ c ∷ rest ]

  pub rank_models : ℕ → TaskType → List ℕ → ModelRouter → List (ℕ × ℕ)
  unfolding sort_ranked scored
  rank_models now task excluded r = sort_ranked (scored now r task (candidates excluded r))

  first_positive : ℕ → List (ℕ × ℕ) → ℕ
  first_positive d [] = d
  first_positive d ((m, s) ∷ ranked) = if ltb origin s then m else first_positive d ranked

  pub select_model : ℕ → TaskType → List ℕ → ModelRouter → ℕ
  unfolding rank_models first_positive
  select_model now task excluded r =
      first_positive r.default_model (rank_models now task excluded r)

  positive_models : List (ℕ × ℕ) → List ℕ
  positive_models [] = []
  positive_models ((m, s) ∷ ranked) =
      if ltb origin s then m ∷ positive_models ranked else positive_models ranked

  abbrev first_three : List ℕ → List ℕ
  first_three (a ∷ b ∷ c ∷ ms) = a ∷ b ∷ c ∷ []
  first_three ms = ms

  pub build_fallback_cascade : ℕ → TaskType → ModelRouter → List ℕ
  unfolding rank_models positive_models
  build_fallback_cascade now task r = elim (positive_models (rank_models now task [] r)) [
    | [] ↦ r.default_model ∷ []
    | m ∷ ms ↦ first_three (m ∷ ms)
  ]

  abbrev mapped : ModelRouter → ℕ → ℕ
  mapped r node = elim (lookup node r.node_model_map) [ none ↦ r.default_model | some m ↦ m ]

  -- The node is known by its number; `task` is what `_normalize_task_type` makes of its name.
  pub resolve_model : ℕ → ℕ → Option TaskType → ModelRouter → ℕ
  unfolding select_model
  resolve_model now node task r =
      if r.mock_mode
      then mock
      else if not r.auto_route && not (r.default_model == auto)
      then mapped r node
      else elim task [ none ↦ mapped r node | some t ↦ select_model now t [] r ]
