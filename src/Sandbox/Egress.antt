-- ===== src/Sandbox/Egress.antt =====
-- loom/sandbox/tiers.py: which hosts a command in a sandbox may reach. Texts are ASCII codes; the host name
-- that `urlparse` finds, empty where there is none, is an argument, and `none` where it raises. The audit log is the targets that it is
-- asked to record, where there is one.
pub mod Laws
mod Tests
use loom_unified_agentic_cod.Base.{
  ℕ, zero, suc, ◌+◌, ◌-◌, ◌*◌, ◌/◌, ◌%◌, ◌^◌, min, max, ◌≤◌, ◌<◌, ◌≡◌, refl, sym, ap, subst, ◌∙◌,
  ◌≢◌, ◌↔◌, ◌⊎◌, inl, inr, Bool, true, false, not, ◌&&◌, ◌||◌, Option, none, some, List, [], ◌∷◌,
  ◌++◌, map, append-nil, append_assoc, arith, ltb, leb, ◌==◌, if◌then◌else◌, ltb→lt, lt→ltb, leb→le,
  le→leb, ==_iff, tests, if_both, if_cases, Bool-cases, Option-cases, is_some, is_none, contains,
  Distinct, contains-append, Distinct-snoc, length, select, any_of, all_of, sum_of, All,
  length-append, length-select-le, sum_of-append, select-append,
}
use loom_unified_agentic_cod.Base.Text.{
  Text, codes, same, drop, starts_with, ends_with, is_space, strip, is_empty,
}
use loom_unified_agentic_cod.Sandbox.Tiers.{SandboxTier}
use loom_unified_agentic_cod.Verification.Pipeline.{lower, mentions}

abbrev pub default_egress_allowlist : List Text
default_egress_allowlist =
    codes "pypi.org"
    ∷ codes "files.pythonhosted.org"
    ∷ codes "registry.npmjs.org"
    ∷ codes "github.com"
    ∷ codes "gitlab.com"
    ∷ codes "proxy.golang.org"
    ∷ codes "crates.io"
    ∷ codes "static.crates.io"
    ∷ codes "repo1.maven.org"
    ∷ codes "plugins.gradle.org"
    ∷ []

abbrev on_dotless : ℕ → Text → Text
on_dotless c [] = if c == 46 then [] else c ∷ []
on_dotless c (d ∷ t) = c ∷ d ∷ t

-- `t.rstrip(".")`
unfoldable pub without_dots : Text → Text
without_dots [] = []
without_dots (c ∷ t) = on_dotless c (without_dots t)

-- `t.lower().rstrip(".")`
unfoldable pub normal : Text → Text
unfolding without_dots
normal t = without_dots (map lower t)

unfoldable pub host_allowed : Text → Text → Bool
unfolding normal
host_allowed host allowed =
    same (normal host) (normal allowed) || ends_with (46 ∷ normal allowed) (normal host)

pub record EgressViolation : Type 0 where
  pub target : Text
  pub command : Text
  pub tier : SandboxTier

pub record EgressEnforcer : Type 0 where
  pub allowlist : List Text
  pub violations : List EgressViolation
  pub audit_logger : Option (List Text)

-- `allowlist or DEFAULT_EGRESS_ALLOWLIST.copy()`
pub enforcer : List Text → Option (List Text) → EgressEnforcer
enforcer [] logger = record {
  allowlist = default_egress_allowlist;
  violations = [];
  audit_logger = logger;
}
enforcer (h ∷ hs) logger = record { allowlist = h ∷ hs; violations = []; audit_logger = logger }

abbrev as_url : Text → Text
as_url t = if mentions (codes "://") t then t else codes "https://" ++ t

-- What `urlparse` is given.
unfoldable pub url_of : Text → Text
unfolding without_dots
url_of target = as_url (without_dots (strip (map lower target)))

-- The test of a host that was found.
unfoldable pub host_passes : List Text → Text → Bool
unfolding normal host_allowed
host_passes hosts found =
    let host = normal found in not (is_empty host) && any_of (host_allowed host) hosts

-- Whether a target is allowed; `none` where its parsing raises.
unfoldable pub is_allowed : (Text → Option Text) → List Text → Text → Option Bool
unfolding url_of host_passes
is_allowed hostname hosts target = elim (hostname (url_of target)) [
  | none ↦ none
  | some found ↦ some (host_passes hosts found)
]

abbrev audit : Text → Option (List Text) → Option (List Text)
audit target none = none
audit target (some ts) = some (ts ++ target ∷ [])

unfoldable pub violate : EgressViolation → EgressEnforcer → EgressEnforcer
violate v e = record e {
  violations = e.violations ++ v ∷ [];
  audit_logger = audit v.target e.audit_logger;
}

unfoldable pub checked :
    Option Bool → EgressViolation → EgressEnforcer → Option Bool × EgressEnforcer
unfolding violate
checked none v e = (none, e)
checked (some true) v e = (some true, e)
checked (some false) v e = (some false, violate v e)

unfoldable pub check_egress :
    (Text → Option Text) → Text → Text → SandboxTier → EgressEnforcer → Option Bool × EgressEnforcer
unfolding is_allowed checked
check_egress hostname target command tier e =
    checked (is_allowed hostname e.allowlist target)
      (record { target = target; command = command; tier = tier }) e

-- A character that ends the host in the patterns: white space, `/`, `'`, `<`, `>`, in a URL `"` too, and in
-- a remote `:`.
abbrev ends_host : Bool → ℕ → Bool
ends_host remote c =
    is_space c
    || (c == 47 || (c == 39 || (c == 60 || (c == 62 || (if remote then c == 58 else c == 34)))))

-- The host at the start of a text.
abbrev host_at : Bool → Text → Text
host_at remote [] = []
host_at remote (c ∷ t) = if ends_host remote c then [] else c ∷ host_at remote t

abbrev host_behind : Bool → Text → Text → Text
host_behind remote p t = if starts_with p t then host_at remote (drop (length p) t) else []

-- A match at the start of a text: the group, empty where there is no match, and the length of the match.
-- `https?://([^\s/"\'<>]+)`
abbrev url_at : Text → Text × ℕ
url_at t =
    let h = host_behind false (codes "https://") t in
    let h' = host_behind false (codes "http://") t in
    if is_empty h then (h', 7 + length h') else (h, 8 + length h)

-- `ssh://([^\s/"\'<>]+)`
abbrev ssh_at : Text → Text × ℕ
ssh_at t = let h = host_behind false (codes "ssh://") t in (h, 6 + length h)

-- `git@([^\s/:\'<>]+):`
abbrev remote_at : Text → Text × ℕ
remote_at t =
    let h = host_behind true (codes "git@") t in
    if starts_with (58 ∷ []) (drop (4 + length h) t) then (h, 5 + length h) else ([], 0)

abbrev add_match : Text → List Text → List Text
add_match [] hs = hs
add_match (c ∷ h) hs = (c ∷ h) ∷ hs

-- `finditer`: a match goes on behind its end; the number is how many characters of it are left.
unfoldable pub finditer : (Text → Text × ℕ) → ℕ → Text → List Text
finditer at n [] = []
finditer at (suc n) (c ∷ t) = finditer at n t
finditer at zero (c ∷ t) =
    let (h, n) = at (c ∷ t) in
    let skip = if is_empty h then 0 else n - 1 in add_match h (finditer at skip t)

abbrev net_tools : List Text
net_tools =
    codes "curl "
    ∷ codes "wget "
    ∷ codes "nc "
    ∷ codes "netcat "
    ∷ codes "ssh "
    ∷ codes "scp "
    ∷ codes "rsync "
    ∷ codes "telnet "
    ∷ codes "ftp "
    ∷ codes "dig "
    ∷ codes "nslookup "
    ∷ codes "ping "
    ∷ codes "nmap "
    ∷ []

abbrev has_tool : Text → Text → Bool
has_tool cmd tool =
    starts_with tool cmd
    || (mentions (32 ∷ tool) cmd || (mentions (59 ∷ tool) cmd || mentions (124 ∷ tool) cmd))

-- What `check_command_egress` checks: URLs, SSH URLs, remotes and the tools of the network.
unfoldable pub targets : Text → List Text
unfolding finditer
targets command =
    finditer url_at 0 command
    ++ (finditer ssh_at 0 command
        ++ (finditer remote_at 0 command
            ++ map strip (select (has_tool (strip (map lower command))) net_tools)))

-- A check that raises ends the loop, and what was blocked is not returned.
abbrev pub add_blocked : Bool → Text → Option (List Text) → Option (List Text)
add_blocked ok t none = none
add_blocked true t (some ts) = some ts
add_blocked false t (some ts) = some (t ∷ ts)

unfoldable pub check_targets :
    (Text → Option Text)
    → Text
    → SandboxTier
    → List Text
    → EgressEnforcer
    → Option (List Text) × EgressEnforcer
unfolding check_egress
check_targets hostname command tier [] e = (some [], e)
check_targets hostname command tier (t ∷ ts) e =
    let (answer, e1) = check_egress hostname t command tier e in
    let (blocked, e2) = check_targets hostname command tier ts e1 in
    elim answer [ none ↦ (none, e1) | some ok ↦ (add_blocked ok t blocked, e2) ]

pub check_command_egress :
    (Text → Option Text) → Text → SandboxTier → EgressEnforcer → Option (List Text) × EgressEnforcer
unfolding check_targets targets
check_command_egress hostname command tier e =
    check_targets hostname command tier (targets command) e

pub violation_count : EgressEnforcer → ℕ
violation_count e = length e.violations
