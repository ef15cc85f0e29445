-- ===== src/Auth/ApiTokens/Tests.antt =====
-- The laws of API tokens at concrete registries.
use loom_unified_agentic_cod.Base.{
  ℕ, ◌+◌, ◌≡◌, refl, ◌≢◌, true, ◌&&◌, none, some, [], ◌∷◌, ◌==◌, length, select,
}
use loom_unified_agentic_cod.Base.Dict.{values}
use loom_unified_agentic_cod.Auth.Context.{AuthState}
use loom_unified_agentic_cod.Auth.ApiTokens.{
  ApiTokenRecord, ApiTokenStore, unreadable, issued, new_record, load, persist, issue, verify,
  accepted, revoke, modify, revoke_all_for_user, revoke_owned,
}
use loom_unified_agentic_cod.Auth.ApiTokens.Laws.{issue-verify}
use loom_unified_agentic_cod.Auth.ApiTokens.Revocation.{
  IsKeyed, revoked_rejected, is_not_of, revoke_all-user,
}
use loom_unified_agentic_cod.Auth.ApiTokens.Keyed.{
  issue_call, revoke_call, revoke_all_call, serve_all, registry-IsKeyed,
}

abbrev hash : ℕ → ℕ
hash token = token + 1000

abbrev asking : AuthState
asking = record { principal = none; request_auth_context = true }

-- Alice's token 11 and her token 12, and Bob's token 13.
abbrev alice_11 : ApiTokenRecord
alice_11 = new_record hash 1 11 5 9 100 50

abbrev alice_12 : ApiTokenRecord
alice_12 = new_record hash 2 12 5 9 100 50

abbrev bob_13 : ApiTokenRecord
bob_13 = new_record hash 3 13 6 9 100 50

abbrev registry : ApiTokenStore
registry = record { records = (1, alice_11) ∷ (2, alice_12) ∷ (3, bob_13) ∷ []; file = [] }

issue-verify_example :
    ((issue hash true (some 50) true 4 14 6 9 100 registry).0
      ≡ issued (new_record hash 4 14 6 9 100 50))
    × ((verify hash 14 149 (issue hash true (some 50) true 4 14 6 9 100 registry).1 asking).0
        ≡ some (new_record hash 4 14 6 9 100 50))
issue-verify_example =
    issue-verify hash true 4 14 6 9 100 50 149 registry asking (refl, (refl, (refl, tt)))

said_yes : (revoke true true 110 1 registry).0 ≡ some true
unfolding revoke
said_yes = refl

still_opens : (verify hash 12 120 (revoke true true 110 1 registry).1 asking).0 ≡ some alice_12
unfolding revoke persist modify verify accepted
still_opens = refl

revoked_rejected_example : alice_12.id ≢ 1
revoked_rejected_example =
    revoked_rejected hash true 110 1 12 120 registry asking alice_12 (refl, (refl, (refl, tt)))
      said_yes still_opens

bob_opens :
    (verify hash 13 120 (revoke_all_for_user true true 110 5 registry).1 asking).0 ≡ some bob_13
unfolding revoke_all_for_user persist revoke_owned verify accepted
bob_opens = refl

revoke_all-user_example :
    let (answer, s') = revoke_all_for_user true true 110 5 registry in
    (answer
      ≡ some (
          length (
            select (λ (r : ApiTokenRecord). r.user_id == 5 && r.active) (values registry.records))))
    × (is_not_of 5 (verify hash 13 120 s' asking).0 ≡ true)
revoke_all-user_example = revoke_all-user hash true 110 5 registry 13 120 asking

registry-IsKeyed_example :
    IsKeyed
      (serve_all hash
        (issue_call true (some 50) true 4 14 6 9 100
          ∷ revoke_call true true 110 4
          ∷ revoke_all_call true true 120 6
          ∷ [])
        (load true 100 (unreadable ∷ []))).records
registry-IsKeyed_example = registry-IsKeyed hash true 100 (unreadable ∷ []) (
    issue_call true (some 50) true 4 14 6 9 100
    ∷ revoke_call true true 110 4
    ∷ revoke_all_call true true 120 6
    ∷ [])
