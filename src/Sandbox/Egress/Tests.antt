-- ===== src/Sandbox/Egress/Tests.antt =====
-- The egress of a command that asks a mirror, a host with a similar name and a tool.
use loom_unified_agentic_cod.Base.{◌≡◌, refl, Option, none, some, [], ◌∷◌, ◌==◌, if◌then◌else◌}
use loom_unified_agentic_cod.Base.Text.{Text, codes, drop}
use loom_unified_agentic_cod.Sandbox.Tiers.{b_firecracker_microvm}
use loom_unified_agentic_cod.Sandbox.Egress.{
  EgressEnforcer, enforcer, check_command_egress, targets, violation_count,
}
use loom_unified_agentic_cod.Sandbox.Egress.Laws.{Outcome, command-blocked}

-- The host of a target that has no path or port; one that begins with a bracket cannot be parsed.
abbrev named : Text → Option Text
named [] = some []
named (c ∷ t) = if c == b'[' then none else some (c ∷ t)

abbrev hostname : Text → Option Text
hostname url = named (drop 8 url)

abbrev guard : EgressEnforcer
unfolding enforcer
guard = enforcer (codes "pypi.org" ∷ []) (some [])

abbrev command : Text
command = codes "curl https://Files.pypi.org/x http://evilpypi.org"

command-blocked_example :
    let r = check_command_egress hostname command b_firecracker_microvm guard in
    Outcome hostname command b_firecracker_microvm (targets command) guard r.0 r.1
command-blocked_example = command-blocked hostname command b_firecracker_microvm guard

blocked :
    (check_command_egress hostname command b_firecracker_microvm guard).0
    ≡ some (codes "evilpypi.org" ∷ codes "curl" ∷ [])
unfolding check_command_egress guard
blocked = refl

unparsed :
    (check_command_egress hostname (codes "git http://[x") b_firecracker_microvm guard).0 ≡ none
unfolding check_command_egress guard
unparsed = refl

-- A remote in quotation marks: the mark before the colon belongs to what is checked.
quoted :
    (check_command_egress hostname (codes "git@evil.org\":x") b_firecracker_microvm guard).0
    ≡ some (codes "evil.org\"" ∷ [])
unfolding check_command_egress guard
quoted = refl

counted : violation_count (check_command_egress hostname command b_firecracker_microvm guard).1 ≡ 2
unfolding check_command_egress violation_count guard
counted = refl
