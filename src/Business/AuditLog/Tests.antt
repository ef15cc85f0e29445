-- ===== src/Business/AuditLog/Tests.antt =====
-- The audit log at a concrete run.
use loom_unified_agentic_cod.Base.{◌≡◌, refl, true, false, none, some, List, [], ◌∷◌, Bool}
use loom_unified_agentic_cod.Business.AuditLog.{
  AuditLogEntry, AuditLogger, run_triggered, member_invited, member_removed, entry, unreadable,
  load_entries, open_log, get_entries,
}
use loom_unified_agentic_cod.Business.AuditLog.Laws.{audit-restart, record_all}

abbrev triggered : AuditLogEntry
triggered = record {
  id = 1;
  org_id = 7;
  actor_id = 3;
  action = run_triggered;
  target = 0;
  timestamp = 10;
}

abbrev invited : AuditLogEntry
invited = record {
  id = 2;
  org_id = 8;
  actor_id = 3;
  action = member_invited;
  target = 4;
  timestamp = 11;
}

abbrev removed : AuditLogEntry
removed = record {
  id = 3;
  org_id = 7;
  actor_id = 3;
  action = member_removed;
  target = 4;
  timestamp = 12;
}

abbrev log : AuditLogger
log = record { entries = triggered ∷ []; file = unreadable ∷ entry triggered ∷ [] }

-- The write of the first call fails, that of the second goes well.
abbrev calls : List (Bool × AuditLogEntry)
calls = (false, invited) ∷ (true, removed) ∷ []

audit-restart_example :
    ((record_all calls log).entries ≡ triggered ∷ removed ∷ [])
    × ((open_log (record_all calls log).file).entries ≡ triggered ∷ removed ∷ [])
unfolding load_entries
audit-restart_example = audit-restart calls log refl (refl, (refl, (refl, tt)))

of_org : get_entries (some 7) none log ≡ triggered ∷ []
unfolding get_entries
of_org = refl
