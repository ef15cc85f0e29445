-- ===== src/Business/AuditLog/Laws.antt =====
-- The audit log is append-only, and a restart gives it back.
use loom_unified_agentic_cod.Base.{
  ℕ, ◌≡◌, refl, sym, ap, subst, ◌∙◌, Bool, true, false, List, [], ◌∷◌, ◌++◌, append-nil,
  append_assoc, arith, if◌then◌else◌, contains, Distinct, contains-append,
}
use loom_unified_agentic_cod.Business.AuditLog.{
  AuditLogEntry, AuditLine, unreadable, entry, AuditLogger, load_entries, open_log, remove_entry,
  record_entry,
}

abbrev pub ids : List AuditLogEntry → List ℕ
ids [] = []
ids (x ∷ xs) = x.id ∷ ids xs

remove-last :
    (e : AuditLogEntry) (xs : List AuditLogEntry)
    → contains e.id (ids xs) ≡ false
    → remove_entry e (xs ++ e ∷ []) ≡ xs
unfolding remove_entry
remove-last e [] h = ground arith
remove-last e (x ∷ xs) h = ground (arith, remove-last e xs)

-- A run of `record`, each with its outcome of the write.
pub record_all : List (Bool × AuditLogEntry) → AuditLogger → AuditLogger
unfolding record_entry
record_all [] l = l
record_all ((w, e) ∷ es) l = record_all es (record_entry w e l).1

-- The entries whose write went well.
abbrev pub written : List (Bool × AuditLogEntry) → List AuditLogEntry
written [] = []
written ((w, e) ∷ es) = if w then e ∷ written es else written es

abbrev pub call_ids : List (Bool × AuditLogEntry) → List ℕ
call_ids [] = []
call_ids ((w, e) ∷ es) = e.id ∷ call_ids es

load-append :
    (xs ys : List AuditLine) → load_entries (xs ++ ys) ≡ load_entries xs ++ load_entries ys
unfolding load_entries
load-append [] ys = refl
load-append (unreadable ∷ xs) ys = load-append xs ys
load-append (entry e ∷ xs) ys = ap (◌∷◌ e) (load-append xs ys)

ids-append : (xs ys : List AuditLogEntry) → ids (xs ++ ys) ≡ ids xs ++ ids ys
ids-append [] ys = refl
ids-append (x ∷ xs) ys = ap (◌∷◌ x.id) (ids-append xs ys)

Distinct-before :
    (xs : List ℕ) (y : ℕ) (ys : List ℕ) → Distinct (xs ++ y ∷ ys) → contains y xs ≡ false
Distinct-before [] y ys d = refl
Distinct-before (x ∷ xs) y ys d =
    ground (arith, contains-append x xs (y ∷ ys), Distinct-before xs y ys d.1)

Distinct-drop : (xs : List ℕ) (y : ℕ) (ys : List ℕ) → Distinct (xs ++ y ∷ ys) → Distinct (xs ++ ys)
Distinct-drop [] y ys d = d.1
Distinct-drop (x ∷ xs) y ys d = (
  ground (arith, contains-append x xs (y ∷ ys), contains-append x xs ys),
  Distinct-drop xs y ys d.1,
)

-- The entries are those of the file.
abbrev pub InSync : AuditLogger → Type 0
InSync l = load_entries l.file ≡ l.entries

written-InSync :
    (e : AuditLogEntry) (l : AuditLogger)
    → InSync l
    → load_entries (l.file ++ entry e ∷ []) ≡ l.entries ++ e ∷ []
unfolding load_entries
written-InSync e l s = load-append l.file (entry e ∷ []) ∙ ap (λ x. x ++ e ∷ []) s

record_entry-step :
    (w : Bool) (e : AuditLogEntry) (l : AuditLogger)
    → contains e.id (ids l.entries) ≡ false
    → InSync l
    → ((record_entry w e l).1.entries ≡ l.entries ++ written ((w, e) ∷ []))
      × InSync (record_entry w e l).1
unfolding record_entry
record_entry-step true e l h s = (refl, written-InSync e l s)
record_entry-step false e l h s =
    let r = remove-last e l.entries h in (r ∙ sym (append-nil l.entries), s ∙ sym r)

written-cons :
    (w : Bool) (e : AuditLogEntry) (es : List (Bool × AuditLogEntry)) (xs : List AuditLogEntry)
    → (xs ++ written ((w, e) ∷ [])) ++ written es ≡ xs ++ written ((w, e) ∷ es)
written-cons true e es xs = append_assoc xs (e ∷ []) (written es)
written-cons false e es xs = ap (λ y. y ++ written es) (append-nil xs)

written-Distinct :
    (w : Bool) (e : AuditLogEntry) (xs : List AuditLogEntry) (ks : List ℕ)
    → Distinct (ids xs ++ e.id ∷ ks)
    → Distinct (ids (xs ++ written ((w, e) ∷ [])) ++ ks)
written-Distinct true e xs ks d =
    subst Distinct
      (sym (ap (λ y. y ++ ks) (ids-append xs (e ∷ [])) ∙ append_assoc (ids xs) (e.id ∷ []) ks)) d
written-Distinct false e xs ks d =
    subst (λ y. Distinct (ids y ++ ks)) (sym (append-nil xs)) (Distinct-drop (ids xs) e.id ks d)

-- The log is append-only and durable: from a log that agrees with its file, after any calls of `record`
-- whose identifiers are new and distinct, the entries are the old ones, untouched and in their order,
-- followed by those whose write went well, and a restart from the file gives back the same entries.
pub audit-restart :
    (es : List (Bool × AuditLogEntry)) (l : AuditLogger)
    → InSync l
    → Distinct (ids l.entries ++ call_ids es)
    → ((record_all es l).entries ≡ l.entries ++ written es)
      × ((open_log (record_all es l).file).entries ≡ l.entries ++ written es)
unfolding record_all open_log
audit-restart [] l s d = (sym (append-nil l.entries), s ∙ sym (append-nil l.entries))
audit-restart ((w, e) ∷ es) l s d =
    let h = Distinct-before (ids l.entries) e.id (call_ids es) d in
    let (grown, s') = record_entry-step w e l h s in
    let d' =
      subst (λ y. Distinct (ids y ++ call_ids es)) (sym grown)
        (written-Distinct w e l.entries (call_ids es) d) in
    let (a, b) = audit-restart es (record_entry w e l).1 s' d' in
    let eq = ap (λ y. y ++ written es) grown ∙ written-cons w e es l.entries in (a ∙ eq, b ∙ eq)
