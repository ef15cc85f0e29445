-- ===== src/Api/Webhooks/Laws.antt =====
-- How often a delivery is attempted, and how it ends.
use loom_unified_agentic_cod.Base.{
  ℕ, zero, suc, ◌+◌, ◌-◌, max, ◌≤◌, ◌<◌, ◌≡◌, refl, sym, ap, subst, ◌∙◌, Bool, false, ◌||◌, some,
  List, [], ◌∷◌, ◌++◌, arith, leb, ◌==◌, if◌then◌else◌, leb→le, if_cases,
}
use loom_unified_agentic_cod.Base.Dict.{lookup, lookup-insert}
use loom_unified_agentic_cod.Api.Webhooks.Subscriptions.{WebhookSubscription}
use loom_unified_agentic_cod.Api.Webhooks.{
  Response, WebhookDelivery, WebhookEngine, is_delivered, is_success, take_response, save_delivery,
  append_dead_letter, Receiver, deliver_one, retry_delay, Attempted, retry_from, retry_delivery,
  attempt,
}

-- One of `n` attempts from the `k`-th on is answered with success.
abbrev pub some_success : Receiver → ℕ → ℕ → Bool
some_success receiver k zero = false
some_success receiver k (suc n) = is_success (receiver k).1 || some_success receiver (suc k) n

-- The attempts that `n` rounds of the range come to.
abbrev rounds : ℕ → ℕ
rounds zero = 0
rounds (suc n) = suc (n - 1)

-- The attempts of a delivery in all: one without retries, two with one retry, and otherwise as many as
-- there are retries.
abbrev pub attempt_limit : ℕ → ℕ
attempt_limit max_retries = if max_retries == 0 then 1 else max 2 max_retries

limit-rounds : (m : ℕ) → suc (rounds m) ≡ attempt_limit m
limit-rounds zero = refl
limit-rounds (suc n) = ground arith

-- The file of the delivery, and the dead letters, are up to date with the outcome.
abbrev pub Settled : List WebhookDelivery → Attempted → Type 0
Settled dead a =
    (lookup a.delivery.id a.engine.saved ≡ some a.delivery)
    × (a.engine.dead_letters ≡ (if is_delivered a.delivery then dead else dead ++ a.delivery ∷ []))

took-status :
    (now : ℕ) (r : Response) (d : WebhookDelivery)
    → is_delivered d ≡ false
    → (is_delivered (take_response now r d) ≡ is_success r)
      × ((take_response now r d).attempt_number ≡ d.attempt_number)
      × ((take_response now r d).id ≡ d.id)
      × ((take_response now r d).subscription_id ≡ d.subscription_id)
unfolding take_response
took-status now r d h = ground arith

module _ (receiver : Receiver) where
  pub one-status :
      (d : WebhookDelivery) (e : WebhookEngine)
      → let (d', e') = deliver_one receiver d e in
        (is_delivered d' ≡ is_success (receiver d.attempt_number).1)
        × (d'.attempt_number ≡ suc d.attempt_number)
        × (d'.id ≡ d.id)
        × (d'.subscription_id ≡ d.subscription_id)
        × (lookup d'.id e'.saved ≡ some d')
        × (e'.dead_letters ≡ e.dead_letters)
        × (e'.subscriptions ≡ e.subscriptions)
  unfolding deliver_one save_delivery
  one-status d e =
      let (now, r) = receiver d.attempt_number in
      let d' = (deliver_one receiver d e).0 in
      let (a, b, c, g) = took-status now r _ refl in
      (a, b, c, g, ground (arith, lookup-insert d'.id d'.id d' e.saved), refl, refl)

  -- The outcome of `c` attempts from the `k`-th on.
  abbrev Outcome : ℕ → ℕ → ℕ → List WebhookDelivery → Attempted → Type 0
  Outcome k c id dead a =
      (is_delivered a.delivery ≡ some_success receiver k c)
      × (a.delivery.attempt_number ≤ k + c)
      × (a.delivery.id ≡ id)
      × Settled dead a

  rounds-next : (n k m : ℕ) → n + suc k ≡ suc m → suc k < m → rounds n ≡ n - 1
  rounds-next zero k m e h = omega (arith, e, h)
  rounds-next (suc n) k m e h = omega (arith, e, h)

  last-round : (n k m : ℕ) → n + suc k ≡ suc m → m ≤ suc k → n - 1 ≡ 0
  last-round n k m e h = omega (arith, e, h)

  grown :
      (k c : ℕ) (a : Attempted) (id : ℕ) (dead : List WebhookDelivery)
      → is_success (receiver k).1 ≡ false
      → Outcome (suc k) c id dead a
      → Outcome k (suc c) id dead a
  grown k c a id dead h (d, n, i, s) = (ground (arith, h, d), omega (arith, n), i, s)

  retry-Outcome :
      (sub : WebhookSubscription) (att n : ℕ) (a : Attempted)
      → n + a.delivery.attempt_number ≡ suc sub.max_retries
      → is_delivered a.delivery ≡ false
      → lookup a.delivery.id a.engine.saved ≡ some a.delivery
      → Outcome a.delivery.attempt_number
          (rounds n)
          a.delivery.id
          a.engine.dead_letters
          (retry_from receiver sub att n a)
  unfolding retry_from append_dead_letter
  retry-Outcome sub att zero a e h l = (
    h,
    omega arith,
    refl,
    (
      l,
      ap (λ b. if b then a.engine.dead_letters else a.engine.dead_letters ++ a.delivery ∷ [])
          (sym h),
    ),
  )
  retry-Outcome sub att (suc n) a e h l =
      let k = a.delivery.attempt_number in
      let (d', e') = deliver_one receiver a.delivery a.engine in
      let (s1, s2, s3, _, s5, s6, _) = one-status a.delivery a.engine in
      let a' : Attempted = record {
        delivery = d';
        engine = e';
        slept = a.slept + retry_delay sub att;
      } in
      if_cases (Outcome k (suc (n - 1)) a.delivery.id a.engine.dead_letters) (is_delivered d') _ _
        (λ y. (ground (arith, s1, y), omega (arith, s2), s3, (s5, ground (arith, s6, y))))
        (λ y.
          if_cases (Outcome k (suc (n - 1)) a.delivery.id a.engine.dead_letters)
            (leb sub.max_retries d'.attempt_number) _ _
            (λ q.
              let z =
                last-round n k sub.max_retries (omega (arith, e))
                  (ground (arith, leb→le sub.max_retries d'.attempt_number q, s2)) in
              (
                ground (arith, s1, y, ap (some_success receiver (suc k)) z),
                omega (arith, s2),
                s3,
                (s5, ground (arith, s6, y)),
              ))
            (λ q.
              let z = rounds-next n k sub.max_retries (omega (arith, e)) (ground (arith, s2, q)) in
              let rest = retry-Outcome sub (suc att) n a' (omega (arith, e, s2)) y s5 in
              let X = retry_from receiver sub (suc att) n a' in
              let r1 = subst (λ j. Outcome j (rounds n) d'.id e'.dead_letters X) s2 rest in
              let r2 = subst (λ j. Outcome (suc k) (rounds n) j e'.dead_letters X) s3 r1 in
              let r3 = subst (λ c. Outcome (suc k) c a.delivery.id e'.dead_letters X) z r2 in
              grown k (n - 1) X a.delivery.id a.engine.dead_letters (sym s1 ∙ y) r3))

  -- A new delivery, attempted until an answer is a success or the limit is reached, is delivered exactly
  -- when one of that many attempts is answered with success, is attempted no more often, and in the end its
  -- file holds its final state and the dead letters have grown by exactly it where it is not delivered.
  pub attempt-Settled :
      (sub : WebhookSubscription) (d : WebhookDelivery) (e : WebhookEngine)
      → d.attempt_number ≡ 0
      → let a = attempt receiver sub d e in
        (is_delivered a.delivery ≡ some_success receiver 0 (attempt_limit sub.max_retries))
        × (a.delivery.attempt_number ≤ attempt_limit sub.max_retries)
        × (a.delivery.id ≡ d.id)
        × Settled e.dead_letters a
  unfolding attempt retry_delivery
  attempt-Settled sub d e z =
      let (d', e') = deliver_one receiver d e in
      let (s1, s2, s3, _, s5, s6, _) = one-status d e in
      let c = rounds sub.max_retries in
      let a : Attempted = record { delivery = d'; engine = e'; slept = 0 } in
      let Q = λ (k : ℕ) (x : Attempted). Outcome k (suc c) d.id e.dead_letters x in
      let r = if is_delivered d' then a else retry_delivery receiver sub a in
      let (a1, a2, a3, a4) =
        subst (λ k. Q k r) z
          (if_cases (Q d.attempt_number) (is_delivered d') _ _
            (λ y. (ground (arith, s1, y), omega (arith, s2), s3, (s5, ground (arith, s6, y))))
            (λ y.
              let rest = retry-Outcome sub 0 sub.max_retries a (omega (arith, s2, z)) y s5 in
              let X = retry_from receiver sub 0 sub.max_retries a in
              let r1 = subst (λ j. Outcome j c d'.id e'.dead_letters X) s2 rest in
              let r2 = subst (λ j. Outcome (suc d.attempt_number) c j e'.dead_letters X) s3 r1 in
              grown d.attempt_number c X d.id e.dead_letters (sym s1 ∙ y) r2)) in
      let l = limit-rounds sub.max_retries in
      (a1 ∙ ap (some_success receiver 0) l, omega (arith, a2, l), a3, a4)
