-- ===== src/Api/Webhooks/Dispatch.antt =====
-- loom/api/webhooks.py: the dispatch of an event to its subscribers, and the replay of dead letters. The
-- attempts of the deliveries run one after the other here; in the code they interleave, but each changes
-- only its own delivery and adds at most one dead letter, so only the order of the dead letters differs.
pub mod Laws
use loom_unified_agentic_cod.Base.{
  ℕ, zero, suc, ◌+◌, ◌-◌, ◌*◌, ◌/◌, ◌%◌, ◌^◌, min, max, ◌≤◌, ◌<◌, ◌≡◌, refl, sym, ap, subst, ◌∙◌,
  ◌≢◌, ◌↔◌, ◌⊎◌, inl, inr, Bool, true, false, not, ◌&&◌, ◌||◌, Option, none, some, List, [], ◌∷◌,
  ◌++◌, map, append-nil, append_assoc, arith, ltb, leb, ◌==◌, if◌then◌else◌, ltb→lt, lt→ltb, leb→le,
  le→leb, ==_iff, tests, if_both, if_cases, Bool-cases, Option-cases, is_some, is_none, contains,
  Distinct, contains-append, Distinct-snoc, length, select, any_of, all_of, sum_of, All,
  length-append, length-select-le, sum_of-append, select-append,
}
use loom_unified_agentic_cod.Base.Dict.{Dict, lookup, insert}
use loom_unified_agentic_cod.Api.Webhooks.Subscriptions.{
  WebhookEventType, WebhookSubscription, matching_subscriptions,
}
use loom_unified_agentic_cod.Api.Webhooks.{
  Response, WebhookDelivery, pending, WebhookEngine, save_delivery, Receiver, deliver_one,
  Attempted, attempt,
}

unfoldable pub new_delivery : ℕ → WebhookEventType → WebhookSubscription → WebhookDelivery
new_delivery id event sub = record {
  id = id;
  subscription_id = sub.id;
  event_type = event;
  status = pending;
  attempt_number = 0;
  last_attempt_at = none;
  last_status_code = none;
  last_error = none;
  delivered_at = none;
}

abbrev enter : WebhookDelivery → WebhookEngine → WebhookEngine
enter d e = save_delivery d (record e { deliveries = insert d.id d e.deliveries })

-- The loop over the subscriptions; `fresh n` is the `n`-th random identifier.
unfoldable pub create_deliveries :
    (ℕ → ℕ)
    → ℕ
    → WebhookEventType
    → List WebhookSubscription
    → WebhookEngine
    → List (WebhookSubscription × WebhookDelivery) × WebhookEngine
unfolding new_delivery save_delivery
create_deliveries fresh n event [] e = ([], e)
create_deliveries fresh n event (sub ∷ subs) e =
    let d = new_delivery (fresh n) event sub in
    let (ds, e') = create_deliveries fresh (suc n) event subs (enter d e) in ((sub, d) ∷ ds, e')

-- The tasks; `receivers` gives the receiver of each subscription.
unfoldable pub attempt_all :
    (ℕ → Receiver)
    → List (WebhookSubscription × WebhookDelivery)
    → WebhookEngine
    → List WebhookDelivery × WebhookEngine
unfolding attempt
attempt_all receivers [] e = ([], e)
attempt_all receivers ((sub, d) ∷ ds) e =
    let a = attempt (receivers sub.id) sub d e in
    let (rs, e') = attempt_all receivers ds a.engine in (a.delivery ∷ rs, e')

unfoldable pub dispatch :
    (ℕ → Receiver)
    → (ℕ → ℕ)
    → WebhookEventType
    → Option ℕ
    → WebhookEngine
    → List WebhookDelivery × WebhookEngine
unfolding create_deliveries attempt_all
dispatch receivers fresh event org e =
    let (ds, e') =
      create_deliveries fresh 0 event (matching_subscriptions event org e.subscriptions) e in
    attempt_all receivers ds e'

-- `results[-limit:]`
abbrev last : {A : Type 0} → ℕ → List A → List A
last limit [] = []
last limit (x ∷ xs) =
    let rest = last limit xs in if leb (suc (length xs)) limit then x ∷ xs else rest

abbrev pub get_dead_letters : ℕ → WebhookEngine → List WebhookDelivery
get_dead_letters limit e = last limit e.dead_letters

abbrev live : Option WebhookSubscription → Bool
live none = false
live (some sub) = sub.active

-- The loop of `replay_dead_letters`.
pub replay_each :
    (ℕ → Receiver) → List WebhookDelivery → WebhookEngine → List WebhookDelivery × WebhookEngine
unfolding deliver_one
replay_each receivers [] e = ([], e)
replay_each receivers (d ∷ ds) e =
    let (d', e1) = deliver_one (receivers d.subscription_id) d e in
    let (rs, e') =
      replay_each receivers ds
        (if live (lookup d.subscription_id e.subscriptions) then e1 else e) in
    (if live (lookup d.subscription_id e.subscriptions) then d' ∷ rs else rs, e')

pub replay_dead_letters : (ℕ → Receiver) → WebhookEngine → List WebhookDelivery × WebhookEngine
unfolding replay_each
replay_dead_letters receivers e = replay_each receivers (get_dead_letters 100 e) e
