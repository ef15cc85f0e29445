-- ===== src/Api/Webhooks/Dispatch/Laws.antt =====
-- Every delivery of a dispatch is accounted for.
use loom_unified_agentic_cod.Base.{
  ℕ, zero, suc, ◌+◌, ◌≡◌, refl, sym, ap, ◌∙◌, inl, inr, Bool, not, ◌&&◌, Option, none, some, List,
  [], ◌∷◌, ◌++◌, map, append-nil, append_assoc, arith, leb, ◌==◌, if◌then◌else◌, if_both,
  Bool-cases, select, sum_of, sum_of-append,
}
use loom_unified_agentic_cod.Base.Dict.{lookup, values}
use loom_unified_agentic_cod.Api.Webhooks.Subscriptions.{
  WebhookEventType, WebhookSubscription, is_matching, matching_subscriptions,
}
use loom_unified_agentic_cod.Api.Webhooks.{
  WebhookDelivery, WebhookEngine, is_delivered, save_delivery, Receiver, deliver_one, retry_delay,
  Attempted, retry_from, retry_delivery, attempt,
}
use loom_unified_agentic_cod.Api.Webhooks.Laws.{
  some_success, attempt_limit, attempt-Settled, one-status,
}
use loom_unified_agentic_cod.Api.Webhooks.Dispatch.{
  new_delivery, create_deliveries, attempt_all, dispatch, get_dead_letters, replay_each,
  replay_dead_letters, live, enter,
}

-- The receiver of the subscription answers one of the attempts with success.
abbrev pub reaches : (ℕ → Receiver) → WebhookSubscription → Bool
reaches receivers sub = some_success (receivers sub.id) 0 (attempt_limit sub.max_retries)

abbrev pub lost : List WebhookDelivery → List WebhookDelivery
lost ds = select (λ d. not (is_delivered d)) ds

create-dead :
    (fresh : ℕ → ℕ) (n : ℕ) (event : WebhookEventType) (subs : List WebhookSubscription)
    (e : WebhookEngine)
    → (create_deliveries fresh n event subs e).1.dead_letters ≡ e.dead_letters
unfolding create_deliveries save_delivery
create-dead fresh n event [] e = refl
create-dead fresh n event (sub ∷ subs) e = create-dead fresh (suc n) event subs _

lost-cons :
    (dead : List WebhookDelivery) (d : WebhookDelivery) (ds : List WebhookDelivery)
    → (if is_delivered d then dead else dead ++ d ∷ []) ++ lost ds ≡ dead ++ lost (d ∷ ds)
lost-cons dead d ds = elim (Bool-cases (is_delivered d)) [
  | inl e ↦ ground (arith, e)
  | inr e ↦ ground (arith, e, append_assoc dead (d ∷ []) (lost ds))
]

-- A subscription that asks for the event: active, of the organisation, if one is given, and to the event.
abbrev pub wants : WebhookEventType → Option ℕ → WebhookSubscription → Bool
wants event none sub = sub.active && sub.events event
wants event (some org) sub = sub.active && (sub.org_id == org && sub.events event)

wants-matching :
    (event : WebhookEventType) (org : Option ℕ) (subs : List WebhookSubscription)
    → select (is_matching event org) subs ≡ select (wants event org) subs
wants-matching event none [] = refl
wants-matching event (some org) [] = refl
wants-matching event none (sub ∷ subs) = ground (arith, wants-matching event none subs)
wants-matching event (some org) (sub ∷ subs) = ground (arith, wants-matching event (some org) subs)

retry-subscription :
    (receiver : Receiver) (sub : WebhookSubscription) (att n : ℕ) (a : Attempted)
    → (retry_from receiver sub att n a).delivery.subscription_id ≡ a.delivery.subscription_id
unfolding retry_from
retry-subscription receiver sub att zero a = refl
retry-subscription receiver sub att (suc n) a =
    let (d, e) = deliver_one receiver a.delivery a.engine in
    let a' : Attempted = record {
      delivery = d;
      engine = e;
      slept = a.slept + retry_delay sub att;
    } in
    let s = (one-status receiver a.delivery a.engine).3 in
    if_both (λ (x : Attempted). x.delivery.subscription_id ≡ a.delivery.subscription_id)
      (is_delivered d) _ _ s
      (if_both (λ (x : Attempted). x.delivery.subscription_id ≡ a.delivery.subscription_id)
        (leb sub.max_retries d.attempt_number) _ _ s
        (retry-subscription receiver sub (suc att) n a' ∙ s))

attempt-subscription :
    (receiver : Receiver) (sub : WebhookSubscription) (d : WebhookDelivery) (e : WebhookEngine)
    → (attempt receiver sub d e).delivery.subscription_id ≡ d.subscription_id
unfolding attempt retry_delivery
attempt-subscription receiver sub d e =
    let (d1, e1) = deliver_one receiver d e in
    let a : Attempted = record { delivery = d1; engine = e1; slept = 0 } in
    let s = (one-status receiver d e).3 in
    if_both (λ (x : Attempted). x.delivery.subscription_id ≡ d.subscription_id) (is_delivered d1) _
      _ s (retry-subscription receiver sub 0 sub.max_retries a ∙ s)

abbrev pub subscriber : WebhookDelivery → ℕ
subscriber d = d.subscription_id

abbrev pub id_of : WebhookSubscription → ℕ
id_of sub = sub.id

module _ (receivers : ℕ → Receiver) where
  all-outcomes :
      (fresh : ℕ → ℕ) (n : ℕ) (event : WebhookEventType) (subs : List WebhookSubscription)
      (e0 e : WebhookEngine)
      → let (ds, e') = attempt_all receivers (create_deliveries fresh n event subs e0).0 e in
        (map subscriber ds ≡ map id_of subs)
        × (map is_delivered ds ≡ map (reaches receivers) subs)
        × (e'.dead_letters ≡ e.dead_letters ++ lost ds)
  unfolding create_deliveries attempt_all new_delivery
  all-outcomes fresh n event [] e0 e = (refl, refl, sym (append-nil e.dead_letters))
  all-outcomes fresh n event (sub ∷ subs) e0 e =
      let d = new_delivery (fresh n) event sub in
      let a = attempt (receivers sub.id) sub d e in
      let (s, _, _, (_, dead)) = attempt-Settled (receivers sub.id) sub d e refl in
      let (i, m, l) = all-outcomes fresh (suc n) event subs (enter d e0) a.engine in
      let ds =
        (attempt_all receivers (create_deliveries fresh (suc n) event subs (enter d e0)).0
          a.engine).0 in
      (
        cc (attempt-subscription (receivers sub.id) sub d e, i),
        cc (s, m),
        l ∙ ap (λ x. x ++ lost ds) dead ∙ lost-cons e.dead_letters a.delivery ds,
      )

  -- A dispatch makes one delivery for each active subscription of the organisation to the event, in their
  -- order and under their identifiers; each is delivered exactly when its receiver answers one of its attempts
  -- with success; and the dead letters grow by exactly those that are not delivered, in some order: whatever
  -- weight is given to a delivery, the weights of the dead letters grow by those of the lost ones.
  pub dispatch-accounted :
      (fresh : ℕ → ℕ) (event : WebhookEventType) (org : Option ℕ) (weight : WebhookDelivery → ℕ)
      (e : WebhookEngine)
      → let (ds, e') = dispatch receivers fresh event org e in
        let subs = select (wants event org) (values e.subscriptions) in
        (map subscriber ds ≡ map id_of subs)
        × (map is_delivered ds ≡ map (reaches receivers) subs)
        × (sum_of weight e'.dead_letters ≡ sum_of weight e.dead_letters + sum_of weight (lost ds))
  unfolding dispatch matching_subscriptions
  dispatch-accounted fresh event org weight e =
      let subs = matching_subscriptions event org e.subscriptions in
      let q = wants-matching event org (values e.subscriptions) in
      let (ds0, e1) = create_deliveries fresh 0 event subs e in
      let (i, m, l) = all-outcomes fresh 0 event subs e e1 in
      let ds = (attempt_all receivers ds0 e1).0 in
      (
        i ∙ ap (map id_of) q,
        m ∙ ap (map (reaches receivers)) q,
        ap (sum_of weight) (l ∙ ap (λ x. x ++ lost ds) (create-dead fresh 0 event subs e))
            ∙ sum_of-append weight e.dead_letters (lost ds),
      )

  replay-each :
      (ds : List WebhookDelivery) (e : WebhookEngine)
      → (replay_each receivers ds e).1.dead_letters ≡ e.dead_letters
  unfolding replay_each
  replay-each [] e = refl
  replay-each (d ∷ ds) e =
      let b = live (lookup d.subscription_id e.subscriptions) in
      let e1 = (deliver_one (receivers d.subscription_id) d e).1 in
      replay-each ds (if b then e1 else e)
      ∙ if_both (λ (x : WebhookEngine). x.dead_letters ≡ e.dead_letters) b e1 e
          (one-status (receivers d.subscription_id) d e).5 refl

  -- A replay leaves the dead letters as they are, also those that are delivered by it.
  pub replay-dead_letters :
      (e : WebhookEngine) → (replay_dead_letters receivers e).1.dead_letters ≡ e.dead_letters
  unfolding replay_dead_letters
  replay-dead_letters e = replay-each (get_dead_letters 100 e) e
