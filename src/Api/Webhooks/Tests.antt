-- ===== src/Api/Webhooks/Tests.antt =====
-- The laws of webhooks at concrete subscriptions.
use loom_unified_agentic_cod.Base.{
  ℕ, ◌+◌, ◌≤◌, ◌≡◌, refl, Bool, true, false, some, [], ◌∷◌, map, ltb, ◌==◌, if◌then◌else◌, sum_of,
}
use loom_unified_agentic_cod.Api.Webhooks.Subscriptions.{
  run_completed, WebhookSubscription, matching_subscriptions,
}
use loom_unified_agentic_cod.Api.Webhooks.{
  answered, timed_out, WebhookDelivery, WebhookEngine, is_delivered, Receiver, attempt,
}
use loom_unified_agentic_cod.Api.Webhooks.Laws.{Settled, attempt-Settled}
use loom_unified_agentic_cod.Api.Webhooks.Dispatch.{new_delivery, dispatch}
use loom_unified_agentic_cod.Api.Webhooks.Dispatch.Laws.{subscriber, lost, dispatch-accounted}

abbrev subscription : ℕ → Bool → ℕ → WebhookSubscription
subscription id active retries = record {
  id = id;
  org_id = 7;
  events = λ event. true;
  active = active;
  max_retries = retries;
  retry_backoff_base_seconds = 2;
}

-- Subscriber 2 never answers; the others answer from the third attempt on.
abbrev receivers : ℕ → Receiver
receivers id k =
    (100 + k, if id == 2 then timed_out else if ltb k 2 then answered 503 else answered 200)

abbrev engine : WebhookEngine
engine = record {
  subscriptions =
      (1, subscription 1 true 5) ∷ (2, subscription 2 true 1) ∷ (3, subscription 3 false 5) ∷ [];
  deliveries = [];
  saved = [];
  dead_letters = [];
}

abbrev delivery : WebhookDelivery
delivery = new_delivery 11 run_completed (subscription 1 true 5)

start : delivery.attempt_number ≡ 0
unfolding new_delivery
start = refl

attempt-Settled_example :
    let a = attempt (receivers 1) (subscription 1 true 5) delivery engine in
    (is_delivered a.delivery ≡ true)
    × (a.delivery.attempt_number ≤ 5)
    × (a.delivery.id ≡ delivery.id)
    × Settled [] a
attempt-Settled_example =
    attempt-Settled (receivers 1) (subscription 1 true 5) delivery engine start

dispatch-accounted_example :
    let (ds, e') = dispatch receivers (λ n. 20 + n) run_completed (some 7) engine in
    (map subscriber ds ≡ 1 ∷ 2 ∷ [])
    × (map is_delivered ds ≡ true ∷ false ∷ [])
    × (sum_of (λ (d : WebhookDelivery). d.attempt_number) e'.dead_letters
        ≡ 0 + sum_of (λ (d : WebhookDelivery). d.attempt_number) (lost ds))
dispatch-accounted_example =
    dispatch-accounted receivers (λ n. 20 + n) run_completed (some 7) (λ d. d.attempt_number) engine

tries :
    map
      (λ (d : WebhookDelivery). d.attempt_number)
      (dispatch receivers (λ n. 20 + n) run_completed (some 7) engine).0
    ≡ 3 ∷ 2 ∷ []
unfolding dispatch matching_subscriptions attempt
tries = refl
