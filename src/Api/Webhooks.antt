-- ===== src/Api/Webhooks.antt =====
-- loom/api/webhooks.py: subscriptions, the delivery of an event with its retries, and the dead letters.
-- The clock and the answer of the receiver at each attempt are functions of the attempt; texts, signatures
-- and the payload are left out, and the writes of the files go well.
pub mod Subscriptions
pub mod Laws
pub mod Dispatch
mod Tests
use loom_unified_agentic_cod.Base.{
  ℕ, zero, suc, ◌+◌, ◌-◌, ◌*◌, ◌/◌, ◌%◌, ◌^◌, min, max, ◌≤◌, ◌<◌, ◌≡◌, refl, sym, ap, subst, ◌∙◌,
  ◌≢◌, ◌↔◌, ◌⊎◌, inl, inr, Bool, true, false, not, ◌&&◌, ◌||◌, Option, none, some, List, [], ◌∷◌,
  ◌++◌, map, append-nil, append_assoc, arith, ltb, leb, ◌==◌, if◌then◌else◌, ltb→lt, lt→ltb, leb→le,
  le→leb, ==_iff, tests, if_both, if_cases, Bool-cases, Option-cases, is_some, is_none, contains,
  Distinct, contains-append, Distinct-snoc, length, select, any_of, all_of, sum_of, All,
  length-append, length-select-le, sum_of-append, select-append,
}
use loom_unified_agentic_cod.Base.Dict.{Dict, lookup, insert}
use loom_unified_agentic_cod.Api.Webhooks.Subscriptions.{WebhookEventType, WebhookSubscription}

pub data DeliveryStatus : Type 0 where
  pending delivered failed retrying : DeliveryStatus

-- What came of one request: an answer with its status code, a timeout, another exception.
pub data Response : Type 0 where
  answered : ℕ → Response
  timed_out raised : Response

pub record WebhookDelivery : Type 0 where
  pub id : ℕ
  pub subscription_id : ℕ
  pub event_type : WebhookEventType
  pub status : DeliveryStatus
  pub attempt_number : ℕ
  pub last_attempt_at : Option ℕ
  pub last_status_code : Option ℕ
  pub last_error : Option Response
  pub delivered_at : Option ℕ

pub record WebhookEngine : Type 0 where
  pub subscriptions : Dict WebhookSubscription
  pub deliveries : Dict WebhookDelivery
  pub saved : Dict WebhookDelivery
  pub dead_letters : List WebhookDelivery

abbrev pub is_delivered : WebhookDelivery → Bool
is_delivered d = elim d.status [
  | delivered ↦ true
  | pending ↦ false
  | failed ↦ false
  | retrying ↦ false
]

abbrev pub is_success : Response → Bool
is_success (answered code) = leb 200 code && ltb code 300
is_success timed_out = false
is_success raised = false

abbrev failed_with : Response → WebhookDelivery → WebhookDelivery
failed_with r d = record d { last_error = some r; status = failed }

-- The `try` of `_deliver_one`.
pub take_response : ℕ → Response → WebhookDelivery → WebhookDelivery
take_response now (answered code) d =
    let d' : WebhookDelivery = record d { last_status_code = some code } in
    if is_success (answered code)
    then record d' { status = delivered; delivered_at = some now }
    else failed_with (answered code) d'
take_response now timed_out d = failed_with timed_out d
take_response now raised d = failed_with raised d

pub save_delivery : WebhookDelivery → WebhookEngine → WebhookEngine
save_delivery d e = record e { saved = insert d.id d e.saved }

pub append_dead_letter : WebhookDelivery → WebhookEngine → WebhookEngine
append_dead_letter d e = record e { dead_letters = e.dead_letters ++ d ∷ [] }

-- The receiver: the clock and the answer at an attempt, counted from 0.
abbrev pub Receiver : Type 0
Receiver = ℕ → ℕ × Response

pub deliver_one : Receiver → WebhookDelivery → WebhookEngine → WebhookDelivery × WebhookEngine
unfolding take_response save_delivery
deliver_one receiver d e =
    let (now, response) = receiver d.attempt_number in
    let d1 : WebhookDelivery = record d {
      attempt_number = suc d.attempt_number;
      last_attempt_at = some now;
      status = retrying;
    } in
    let d2 = take_response now response d1 in (d2, save_delivery d2 e)

-- Seconds before the retry `attempt`.
abbrev pub retry_delay : WebhookSubscription → ℕ → ℕ
retry_delay sub attempt = sub.retry_backoff_base_seconds * 2 ^ attempt

-- The delivery, the engine and the seconds slept.
pub record Attempted : Type 0 where
  pub delivery : WebhookDelivery
  pub engine : WebhookEngine
  pub slept : ℕ

-- `_retry_delivery` from its retry `attempt` on, where `n` more are left of the range.
pub retry_from : Receiver → WebhookSubscription → ℕ → ℕ → Attempted → Attempted
unfolding deliver_one append_dead_letter
retry_from receiver sub attempt zero a = record a {
  engine = append_dead_letter a.delivery a.engine;
}
retry_from receiver sub attempt (suc n) a =
    let (d, e) = deliver_one receiver a.delivery a.engine in
    let a' : Attempted = record {
      delivery = d;
      engine = e;
      slept = a.slept + retry_delay sub attempt;
    } in
    let rest = retry_from receiver sub (suc attempt) n a' in
    if is_delivered d
    then a'
    else if leb sub.max_retries d.attempt_number
    then record a' { engine = append_dead_letter d e }
    else rest

pub retry_delivery : Receiver → WebhookSubscription → Attempted → Attempted
unfolding retry_from
retry_delivery receiver sub a = retry_from receiver sub 0 sub.max_retries a

-- `_attempt` of `dispatch`
pub attempt : Receiver → WebhookSubscription → WebhookDelivery → WebhookEngine → Attempted
unfolding deliver_one retry_delivery
attempt receiver sub d e =
    let (d1, e1) = deliver_one receiver d e in
    let a : Attempted = record { delivery = d1; engine = e1; slept = 0 } in
    let r = if is_delivered d1 then a else retry_delivery receiver sub a in
    record r {
      engine = record r.engine { deliveries = insert r.delivery.id r.delivery r.engine.deliveries };
    }
