-- ===== src/Auth/ApiTokens/Keyed.antt =====
-- Every record of the registry stands under its own identifier, whatever is done to it.
use loom_unified_agentic_cod.Base.{
  ℕ, sym, subst, Bool, true, false, not, ◌&&◌, Option, none, some, List, [], ◌∷◌, arith, ltb,
  if_both,
}
use loom_unified_agentic_cod.Base.Dict.{Dict, lookup, insert}
use loom_unified_agentic_cod.Auth.ApiTokens.{
  ApiTokenRecord, ApiTokenStore, TokenLine, unreadable, readable, is_expired, deactivate, persist,
  modify, revoke, revoke_owned, revoke_all_for_user, is_active, issue, issue_with, new_record, load,
  load_line, load_lines,
}
use loom_unified_agentic_cod.Auth.ApiTokens.Laws.{keep-persist}
use loom_unified_agentic_cod.Auth.ApiTokens.Revocation.{IsKeyed, insert-IsKeyed, modify-IsKeyed}

-- A call of an operation that changes the registry, its clock, file and random values as arguments.
pub data Call : Type 0 where
  issue_call : Bool → Option ℕ → Bool → ℕ → ℕ → ℕ → ℕ → ℕ → Call
  revoke_call : Bool → Bool → ℕ → ℕ → Call
  revoke_all_call : Bool → Bool → ℕ → ℕ → Call

pub serve : (ℕ → ℕ) → Call → ApiTokenStore → ApiTokenStore
serve h (issue_call admin ttl w id token user org now) s =
    (issue h admin ttl w id token user org now s).1
serve h (revoke_call admin w now id) s = (revoke admin w now id s).1
serve h (revoke_all_call admin w now user) s = (revoke_all_for_user admin w now user s).1

pub serve_all : (ℕ → ℕ) → List Call → ApiTokenStore → ApiTokenStore
unfolding serve
serve_all h [] s = s
serve_all h (c ∷ cs) s = serve_all h cs (serve h c s)

persist-IsKeyed : (w : Bool) (s : ApiTokenStore) → IsKeyed s.records → IsKeyed (persist w s).records
persist-IsKeyed w s k = subst IsKeyed (sym (keep-persist w s)) k

owned-IsKeyed :
    (now user : ℕ) (d : Dict ApiTokenRecord) → IsKeyed d → IsKeyed (revoke_owned now user d).1
unfolding revoke_owned
owned-IsKeyed now user [] k = tt
owned-IsKeyed now user ((j, r) ∷ d) k = ground (arith, owned-IsKeyed now user d)

abbrev Keyed : ApiTokenStore → Type 0
Keyed s = IsKeyed s.records

issue-IsKeyed :
    (h : ℕ → ℕ) (admin : Bool) (ttl : Option ℕ) (w : Bool) (id token user org now : ℕ)
    (s : ApiTokenStore)
    → Keyed s
    → Keyed (issue h admin ttl w id token user org now s).1
unfolding issue issue_with
issue-IsKeyed h false ttl w id token user org now s k = k
issue-IsKeyed h true none w id token user org now s k = k
issue-IsKeyed h true (some ttl) w id token user org now s k =
    let r = new_record h id token user org now ttl in
    persist-IsKeyed w (record s { records = insert id r s.records }) (insert-IsKeyed r s.records k)

revoke-IsKeyed :
    (admin w : Bool) (now id : ℕ) (s : ApiTokenStore) → Keyed s → Keyed (revoke admin w now id s).1
unfolding revoke
revoke-IsKeyed false w now id s k = k
revoke-IsKeyed true w now id s k =
    let s' : ApiTokenStore = record s { records = modify id (deactivate now) s.records } in
    if_both (λ (x : Option Bool × ApiTokenStore). Keyed x.1) (not (is_active (lookup id s.records)))
      (some false, s) (some true, persist w s') k
      (persist-IsKeyed w s' (modify-IsKeyed now id s.records k))

revoke_all-IsKeyed :
    (admin w : Bool) (now user : ℕ) (s : ApiTokenStore)
    → Keyed s
    → Keyed (revoke_all_for_user admin w now user s).1
unfolding revoke_all_for_user
revoke_all-IsKeyed false w now user s k = k
revoke_all-IsKeyed true w now user s k =
    let s' : ApiTokenStore = record s { records = (revoke_owned now user s.records).1 } in
    let k' = owned-IsKeyed now user s.records k in
    if_both Keyed (ltb 0 (revoke_owned now user s.records).0) _ _ (persist-IsKeyed w s' k') k'

serve_all-IsKeyed :
    (h : ℕ → ℕ) (cs : List Call) (s : ApiTokenStore) → Keyed s → Keyed (serve_all h cs s)
unfolding serve_all serve
serve_all-IsKeyed h [] s k = k
serve_all-IsKeyed h (issue_call admin ttl w id token user org now ∷ cs) s k =
    serve_all-IsKeyed h cs _ (issue-IsKeyed h admin ttl w id token user org now s k)
serve_all-IsKeyed h (revoke_call admin w now id ∷ cs) s k =
    serve_all-IsKeyed h cs _ (revoke-IsKeyed admin w now id s k)
serve_all-IsKeyed h (revoke_all_call admin w now user ∷ cs) s k =
    serve_all-IsKeyed h cs _ (revoke_all-IsKeyed admin w now user s k)

load_lines-IsKeyed :
    (now : ℕ) (ls : List TokenLine) (x : Dict ApiTokenRecord × Bool)
    → IsKeyed x.0
    → IsKeyed (load_lines now ls x).0
unfolding load_lines load_line
load_lines-IsKeyed now [] x k = k
load_lines-IsKeyed now (unreadable ∷ ls) x k = load_lines-IsKeyed now ls x k
load_lines-IsKeyed now (readable r ∷ ls) x k = load_lines-IsKeyed now ls _ (
    if_both (λ (y : Dict ApiTokenRecord × Bool). IsKeyed y.0) (r.active && is_expired r now)
      (insert r.id (deactivate now r) x.0, true) (insert r.id r x.0, x.1)
      (insert-IsKeyed (deactivate now r) x.0 k) (insert-IsKeyed r x.0 k))

-- In the registry that is loaded from any file and has served any sequence of calls, every record stands
-- under its own identifier.
pub registry-IsKeyed :
    (h : ℕ → ℕ) (w : Bool) (now : ℕ) (file : List TokenLine) (cs : List Call)
    → IsKeyed (serve_all h cs (load w now file)).records
unfolding load
registry-IsKeyed h w now file cs =
    let x = load_lines now file ([], false) in
    let s : ApiTokenStore = record { records = x.0; file = file } in
    let k = load_lines-IsKeyed now file ([], false) tt in
    serve_all-IsKeyed h cs _ (if_both Keyed x.1 _ _ (persist-IsKeyed w s k) k)
