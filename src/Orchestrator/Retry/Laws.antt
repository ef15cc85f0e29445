-- ===== src/Orchestrator/Retry/Laws.antt =====
-- What the retries of one node do, for any agent and any commands that arrive meanwhile.
use loom_unified_agentic_cod.Base.{
  ℕ, zero, suc, ◌+◌, ◌-◌, ◌≤◌, ◌≡◌, refl, sym, ap, ◌∙◌, ◌⊎◌, inl, inr, Bool, true, false, Option,
  some, List, [], ◌∷◌, ◌++◌, append_assoc, arith, if◌then◌else◌, Bool-cases, length,
}
use loom_unified_agentic_cod.Orchestrator.Graph.{
  Node, NodeState, Shared, Graph, Command, pause, resume, step_over, cancel, rollback, control,
  deliver, same_node,
}
use loom_unified_agentic_cod.Orchestrator.Retry.{
  Surroundings, Outcome, Usage, done, raised, start_attempt, finish_attempt, attempt_once, gives_up,
  attempts, execute_node_with_retry,
}

-- Commands change neither the log of attempts, nor what was metered, nor a node's status.
abbrev SameLog : Graph → Graph → Type 0
SameLog g g' = (g'.started ≡ g.started) × (g'.metered ≡ g.metered) × (g'.nodes ≡ g.nodes)

control-SameLog : (c : Command) (g : Graph) → SameLog g (control c g)
unfolding control
control-SameLog pause g = (refl, refl, refl)
control-SameLog resume g = (refl, refl, refl)
control-SameLog step_over g = (refl, refl, refl)
control-SameLog cancel g = (refl, refl, refl)
control-SameLog rollback g = (refl, refl, refl)

pub deliver-SameLog : (cs : List Command) (g : Graph) → SameLog g (deliver cs g)
unfolding deliver
deliver-SameLog [] g = (refl, refl, refl)
deliver-SameLog (c ∷ cs) g =
    let (s, m, n) = deliver-SameLog cs (control c g) in
    let (s', m', n') = control-SameLog c g in (s ∙ s', m ∙ m', n ∙ n')

-- The entries of `k` attempts that begin with number `a`, latest first.
abbrev pub attempt_log : Node → ℕ → ℕ → List (Node × ℕ)
attempt_log n zero a = []
attempt_log n (suc k) a = attempt_log n k (a + 1) ++ (n, a + 1) ∷ []

abbrev pub Ran : Node → ℕ → ℕ → Graph → Graph → Type 0
Ran n k a g g' =
    (g'.started ≡ attempt_log n k a ++ g.started) × (length g'.metered ≡ k + length g.metered)

same_node_refl : (n : Node) → same_node n n ≡ true
same_node_refl n = ground arith

state_of : Outcome → NodeState
state_of (done _) = NodeState.completed
state_of (raised _) = NodeState.failed

finish_attempt-log :
    (n : Node) (a : ℕ) (o : Outcome) (g : Graph)
    → ((finish_attempt n a o g).started ≡ g.started)
      × (length (finish_attempt n a o g).metered ≡ 1 + length g.metered)
      × ((finish_attempt n a o g).nodes n ≡ some (state_of o))
unfolding finish_attempt state_of
finish_attempt-log n a (done u) g = (refl, omega arith, rw (same_node_refl n))
finish_attempt-log n a (raised e) g = (refl, omega arith, rw (same_node_refl n))

-- One attempt is logged once, metered once, and leaves the node's status by its outcome.
attempt_once-log :
    (w : Surroundings) (n : Node) (a : ℕ) (g : Graph)
    → ((attempt_once w n a g).1.started ≡ (n, a + 1) ∷ g.started)
      × (length (attempt_once w n a g).1.metered ≡ 1 + length g.metered)
      × ((attempt_once w n a g).1.nodes n ≡ some (state_of (attempt_once w n a g).0))
unfolding attempt_once
attempt_once-log w n a g =
    let g' = start_attempt n a g in
    let r = w.agent n a g'.shared in
    let h = record g' { shared = r.1 } in
    let (s, m, f) = finish_attempt-log n a r.0 (deliver (w.while_running n a) h) in
    let (s', m', _) = deliver-SameLog (w.while_running n a) h in
    (s ∙ s', m ∙ ap (λ l. 1 + length l) m', f)

Outcome-cases : (o : Outcome) → ((u : Option Usage) × (o ≡ done u)) ⊎ ((e : ℕ) × (o ≡ raised e))
Outcome-cases (done u) = inl (u, refl)
Outcome-cases (raised e) = inr (e, refl)

-- What `left` rounds do: they run between `min left 1` and `left` attempts, numbered in order, and
-- the answer is the status of the node.
abbrev pub Rounds : ℕ → Node → ℕ → Graph → Bool × Graph → Type 0
Rounds left n a g (b, g') =
    (k : ℕ) × (k ≤ left)
    × (1 ≤ k)
    × Ran n k a g g'
    × (g'.nodes n ≡ some (if b then NodeState.completed else NodeState.failed))

one_round :
    (w : Surroundings) (n : Node) (left a : ℕ) (g : Graph) (o : Outcome) (b : Bool)
    → (attempt_once w n a g).0 ≡ o
    → state_of o ≡ (if b then NodeState.completed else NodeState.failed)
    → Rounds (suc left) n a g (b, (attempt_once w n a g).1)
one_round w n left a g o b e f =
    let (s, m, c) = attempt_once-log w n a g in
    (1, omega arith, omega arith, (s, m), c ∙ ap (λ x. some (state_of x)) e ∙ ap some f)

-- Waiting for the next attempt changes no log.
waited :
    (n : Node) (left a : ℕ) (g : Graph) (cs : List Command) (b : Bool) (g' : Graph)
    → Rounds left n a g (b, g')
    → Rounds left n a g (b, deliver cs g')
waited n left a g cs b g' (k, lo, hi, (s, m), c) =
    let (s', m', c') = deliver-SameLog cs g' in
    (k, lo, hi, (s' ∙ s, ap length m' ∙ m), ap (λ f. f n) c' ∙ c)

next_round :
    (n : Node) (left a : ℕ) (g g' : Graph) (r : Bool × Graph)
    → (g'.started ≡ (n, a + 1) ∷ g.started)
    → (length g'.metered ≡ 1 + length g.metered)
    → Rounds left n (a + 1) g' r
    → Rounds (suc left) n a g r
next_round n left a g g' r s m (k, lo, hi, (s', m'), c) = (
  suc k,
  omega arith,
  omega arith,
  (rw (s', s) (sym (append_assoc (attempt_log n k (a + 1)) _ _)), omega (arith, m', m)),
  c,
)

after_wait :
    (w : Surroundings) (n : Node) (left a : ℕ) (g : Graph) (r : Bool × Graph)
    → Rounds left n (a + 1) (deliver (w.while_waiting n a) (attempt_once w n a g).1) r
    → Rounds (suc left) n a g r
after_wait w n left a g r h =
    let (s, m, _) = attempt_once-log w n a g in
    let (s', m', _) = deliver-SameLog (w.while_waiting n a) (attempt_once w n a g).1 in
    next_round n left a g (deliver (w.while_waiting n a) (attempt_once w n a g).1) r (s' ∙ s)
      (ap length m' ∙ m) h

attempts-Rounds :
    (w : Surroundings) (n : Node) (left a : ℕ) (prev : List ℕ) (g : Graph)
    → Rounds (suc left) n a g (attempts w n (suc left) a prev g)
unfolding attempts state_of
attempts-Rounds w n zero a prev g = elim (Outcome-cases (attempt_once w n a g).0) [
  | inl (u, e) ↦ rw (e, attempts) (one_round w n 0 a g (done u) true e refl)
  | inr (x, e) ↦ elim (Bool-cases (gives_up w a x prev)) [
    | inl q ↦ rw (e, attempts) (rw q (one_round w n 0 a g (raised x) false e refl))
    | inr q ↦
        rw (e, attempts)
          (rw q (
            waited n 1 a g (w.while_waiting n a) false _
              (one_round w n 0 a g (raised x) false e refl)))
  ]
]
attempts-Rounds w n (suc left) a prev g = elim (Outcome-cases (attempt_once w n a g).0) [
  | inl (u, e) ↦ rw (e, attempts) (one_round w n (suc left) a g (done u) true e refl)
  | inr (x, e) ↦ elim (Bool-cases (gives_up w a x prev)) [
    | inl q ↦ rw (e, attempts) (rw q (one_round w n (suc left) a g (raised x) false e refl))
    | inr q ↦
        rw (e, attempts)
          (rw q (
            after_wait w n (suc left) a g
              (attempts w n (suc left) (a + 1) (x ∷ prev)
                (deliver (w.while_waiting n a) (attempt_once w n a g).1))
              (attempts-Rounds w n left (a + 1) (x ∷ prev)
                (deliver (w.while_waiting n a) (attempt_once w n a g).1))))
  ]
]

-- For any agent and any commands, a node is tried between once and `max_retries + 1` times; the attempts
-- are logged in order from number 1, each sends one event to the usage ledger, and the answer tells
-- whether the node ended as completed or as failed.
pub execute_node-Rounds :
    (w : Surroundings) (n : Node) (g : Graph)
    → Rounds (suc w.max_retries) n 0 g (execute_node_with_retry w n g)
unfolding execute_node_with_retry
execute_node-Rounds w n g =
    let e : w.max_retries + 1 ≡ suc w.max_retries = omega arith in
    rw e (attempts-Rounds w n w.max_retries 0 [] g)

module _ (w : Surroundings) (n : Node) (e : ℕ)
    (same : (a : ℕ) (s : Shared) → (w.agent n a s).0 ≡ raised e) where
  attempt_once-raised : (a : ℕ) (g : Graph) → (attempt_once w n a g).0 ≡ raised e
  unfolding attempt_once
  attempt_once-raised a g = same a (start_attempt n a g).shared

  second_attempt :
      (left : ℕ) (g : Graph)
      → attempts w n (suc left) 1 (e ∷ []) g ≡ (false, (attempt_once w n 1 g).1)
  unfolding attempts gives_up
  second_attempt left g = rw (attempt_once-raised 1 g, attempts) (ground arith)

  first_attempt :
      (left : ℕ) (g : Graph)
      → 1 ≤ w.max_retries
      → attempts w n (suc left) 0 [] g
        ≡ attempts w n left 1 (e ∷ []) (deliver (w.while_waiting n 0) (attempt_once w n 0 g).1)
  unfolding attempts gives_up
  first_attempt left g m = rw (attempt_once-raised 0 g, attempts) (ground arith)

  both_attempts :
      (left : ℕ) (g : Graph)
      → 1 ≤ w.max_retries
      → ((attempts w n (suc (suc left)) 0 [] g).0 ≡ false)
        × Ran n 2 0 g (attempts w n (suc (suc left)) 0 [] g).1
  both_attempts left g m = rw (first_attempt (suc left) g m ∙ second_attempt left _) (
      let (s, k, _) = attempt_once-log w n 0 g in
      let g' = (attempt_once w n 0 g).1 in
      let (s', k', _) = deliver-SameLog (w.while_waiting n 0) g' in
      let (s2, k2, _) = attempt_once-log w n 1 (deliver (w.while_waiting n 0) g') in
      (refl, (rw (s2, s', s), omega (arith, k2, ap length k', k))))

-- An agent that fails twice with one error is not tried a third time: where it always raises the same
-- exception and a retry is allowed, the node is tried exactly twice and fails.
pub same_error_escalates :
    (w : Surroundings) (n : Node) (e : ℕ) (g : Graph)
    → ((a : ℕ) (s : Shared) → (w.agent n a s).0 ≡ raised e)
    → 1 ≤ w.max_retries
    → ((execute_node_with_retry w n g).0 ≡ false) × Ran n 2 0 g (execute_node_with_retry w n g).1
unfolding execute_node_with_retry
same_error_escalates w n e g h m =
    let q : w.max_retries + 1 ≡ suc (suc (w.max_retries - 1)) = omega arith in
    rw q (both_attempts w n e h (w.max_retries - 1) g m)
