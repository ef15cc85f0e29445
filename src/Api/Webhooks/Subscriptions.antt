-- ===== src/Api/Webhooks/Subscriptions.antt =====
-- loom/api/webhooks.py: the events and who has subscribed to them.
use loom_unified_agentic_cod.Base.{
  ℕ, Bool, true, false, ◌&&◌, Option, none, some, List, ◌==◌, if◌then◌else◌, is_some, select,
}
use loom_unified_agentic_cod.Base.Dict.{Dict, lookup, insert, erase, values}

pub data WebhookEventType : Type 0 where
  run_queued run_started run_step_progress run_completed run_failed : WebhookEventType
  run_security_hold run_pending_approval run_rolled_back : WebhookEventType
  patch_proposed patch_auto_merged evidence_ready evidence_exported : WebhookEventType
  usage_quota_warning usage_quota_exceeded quota_warning quota_exceeded : WebhookEventType
  sandbox_egress_blocked evidence_chain_violation : WebhookEventType

-- The set of events is its membership test; the address, the secret and the timeout are left out.
pub record WebhookSubscription : Type 0 where
  pub id : ℕ
  pub org_id : ℕ
  pub events : WebhookEventType → Bool
  pub active : Bool
  pub max_retries : ℕ
  pub retry_backoff_base_seconds : ℕ

-- `register` and `unregister`; the dict is what the file is written from.
pub register : WebhookSubscription → Dict WebhookSubscription → Dict WebhookSubscription
register sub subs = insert sub.id sub subs

pub unregister : ℕ → Dict WebhookSubscription → Bool × Dict WebhookSubscription
unregister id subs = if is_some (lookup id subs) then (true, erase id subs) else (false, subs)

abbrev pub of_org : Option ℕ → WebhookSubscription → Bool
of_org none sub = true
of_org (some org) sub = sub.org_id == org

pub get_subscriptions : Option ℕ → Dict WebhookSubscription → List WebhookSubscription
get_subscriptions org subs = select (of_org org) (values subs)

abbrev pub is_matching : WebhookEventType → Option ℕ → WebhookSubscription → Bool
is_matching event org sub = sub.active && of_org org sub && sub.events event

unfoldable pub matching_subscriptions :
    WebhookEventType → Option ℕ → Dict WebhookSubscription → List WebhookSubscription
matching_subscriptions event org subs = select (is_matching event org) (values subs)
