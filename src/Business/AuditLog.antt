-- ===== src/Business/AuditLog.antt =====
-- loom/business/audit_log.py: the audit log, its file and its restart. The identifier and the clock of an
-- entry are arguments; `writable` is false where appending to the file raises.
pub mod Laws
mod Tests
use loom_unified_agentic_cod.Base.{
  ℕ, zero, suc, ◌+◌, ◌-◌, ◌*◌, ◌/◌, ◌%◌, ◌^◌, min, max, ◌≤◌, ◌<◌, ◌≡◌, refl, sym, ap, subst, ◌∙◌,
  ◌≢◌, ◌↔◌, ◌⊎◌, inl, inr, Bool, true, false, not, ◌&&◌, ◌||◌, Option, none, some, List, [], ◌∷◌,
  ◌++◌, map, append-nil, append_assoc, arith, ltb, leb, ◌==◌, if◌then◌else◌, ltb→lt, lt→ltb, leb→le,
  le→leb, ==_iff, tests, if_both, if_cases, Bool-cases, Option-cases, is_some, is_none, contains,
  Distinct, contains-append, Distinct-snoc, length, select, any_of, all_of, sum_of, All,
  length-append, length-select-le, sum_of-append, select-append,
}

-- `AuditAction`
pub data AuditAction : Type 0 where
  run_triggered run_completed run_failed run_rolled_back run_authorization_denied : AuditAction
  entitlement_check entitlement_denied quota_soft_warn quota_exceeded : AuditAction
  member_invited member_removed member_deprovisioned patch_sensitive_blocked : AuditAction
  evidence_exported sandbox_egress_blocked config_changed : AuditAction

-- The place of an action in the enumeration, by which two actions are compared.
abbrev action_rank : AuditAction → ℕ
action_rank run_triggered = 0
action_rank run_completed = 1
action_rank run_failed = 2
action_rank run_rolled_back = 3
action_rank run_authorization_denied = 4
action_rank entitlement_check = 5
action_rank entitlement_denied = 6
action_rank quota_soft_warn = 7
action_rank quota_exceeded = 8
action_rank member_invited = 9
action_rank member_removed = 10
action_rank member_deprovisioned = 11
action_rank patch_sensitive_blocked = 12
action_rank evidence_exported = 13
action_rank sandbox_egress_blocked = 14
action_rank config_changed = 15

-- The address and the metadata are not read again and are left out.
pub record AuditLogEntry : Type 0 where
  pub id : ℕ
  pub org_id : ℕ
  pub actor_id : ℕ
  pub action : AuditAction
  pub target : ℕ
  pub timestamp : ℕ

-- A line of `audit_log.jsonl`: blank or unreadable, or an entry.
pub data AuditLine : Type 0 where
  unreadable : AuditLine
  entry : AuditLogEntry → AuditLine

pub record AuditLogger : Type 0 where
  pub entries : List AuditLogEntry
  pub file : List AuditLine

unfoldable pub load_entries : List AuditLine → List AuditLogEntry
load_entries [] = []
load_entries (unreadable ∷ ls) = load_entries ls
load_entries (entry e ∷ ls) = e ∷ load_entries ls

-- `AuditLogger(storage_dir)` over a file.
pub open_log : List AuditLine → AuditLogger
unfolding load_entries
open_log file = record { entries = load_entries file; file = file }

-- `list.remove`; two entries with the same identifier are the same.
pub remove_entry : AuditLogEntry → List AuditLogEntry → List AuditLogEntry
remove_entry e [] = []
remove_entry e (x ∷ xs) = if x.id == e.id then xs else x ∷ remove_entry e xs

-- `record`, which is a keyword here; the result is `none` where the entry could not be written.
pub record_entry : Bool → AuditLogEntry → AuditLogger → Option AuditLogEntry × AuditLogger
unfolding remove_entry
record_entry writable e l =
    let l' : AuditLogger = record l { entries = l.entries ++ e ∷ [] } in
    if writable
    then (some e, record l' { file = l'.file ++ entry e ∷ [] })
    else (none, record l' { entries = remove_entry e l'.entries })

abbrev is_of : Option ℕ → AuditLogEntry → Bool
is_of none e = true
is_of (some org_id) e = e.org_id == org_id

abbrev has_action : Option AuditAction → AuditLogEntry → Bool
has_action none e = true
has_action (some action) e = action_rank e.action == action_rank action

pub get_entries : Option ℕ → Option AuditAction → AuditLogger → List AuditLogEntry
get_entries org_id action l = select (has_action action) (select (is_of org_id) l.entries)

pub count : AuditLogger → ℕ
count l = length l.entries
