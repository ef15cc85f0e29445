-- ===== src/Auth/ApiTokens/Revocation.antt =====
-- What a revoked token still opens, which is nothing.
use loom_unified_agentic_cod.Base.{
  ℕ, ◌≡◌, refl, sym, ap, subst, ◌∙◌, ◌≢◌, Bool, true, false, not, Option, none, some, List, [], ◌∷◌,
  arith, ltb, ◌==◌, if_both, if_cases, length, select, All,
}
use loom_unified_agentic_cod.Base.Dict.{Dict, lookup, insert, values}
use loom_unified_agentic_cod.Auth.Context.{AuthState}
use loom_unified_agentic_cod.Auth.ApiTokens.{
  ApiTokenRecord, ApiTokenStore, deactivate, persist, accepts, first, verify, modify, revoke, owned,
  revoke_owned, revoke_all_for_user, is_active,
}
use loom_unified_agentic_cod.Auth.ApiTokens.Laws.{keep-persist, verify-first, first_sound}

-- Every record stands under its own identifier.
abbrev pub IsKeyed : Dict ApiTokenRecord → Type 0
IsKeyed = All (λ e. e.1.id ≡ e.0)

pub insert-IsKeyed :
    (r : ApiTokenRecord) (d : Dict ApiTokenRecord) → IsKeyed d → IsKeyed (insert r.id r d)
insert-IsKeyed r [] k = (refl, tt)
insert-IsKeyed r ((j, x) ∷ d) k = ground (arith, insert-IsKeyed r d)

pub modify-IsKeyed :
    (now id : ℕ) (d : Dict ApiTokenRecord) → IsKeyed d → IsKeyed (modify id (deactivate now) d)
unfolding modify
modify-IsKeyed now id [] k = tt
modify-IsKeyed now id ((j, x) ∷ d) k = ground (arith, modify-IsKeyed now id d)

first-All :
    (h : ℕ → ℕ) (P : ApiTokenRecord → Type 0) (p : ApiTokenRecord → Bool) (xs : List ApiTokenRecord)
    (x : ApiTokenRecord)
    → All P xs
    → first h p xs ≡ some x
    → P x
first-All h P p [] x a e = ground arith
first-All h P p (y ∷ ys) x a e = ground (arith, first-All h P p ys x)

modify-dead :
    (now id : ℕ) (d : Dict ApiTokenRecord)
    → IsKeyed d
    → All (λ r. r.id ≡ id → r.active ≡ false) (values (modify id (deactivate now) d))
unfolding modify
modify-dead now id [] k = tt
modify-dead now id ((j, x) ∷ d) k = ground (arith, modify-dead now id d)

revoked-records :
    (w : Bool) (now id : ℕ) (s : ApiTokenStore)
    → (revoke true w now id s).0 ≡ some true
    → (revoke true w now id s).1.records ≡ modify id (deactivate now) s.records
unfolding revoke
revoked-records w now id s =
    if_cases
      (λ (x : Option Bool × ApiTokenStore).
        x.0 ≡ some true → x.1.records ≡ modify id (deactivate now) s.records)
      (not (is_active (lookup id s.records))) _ _ (λ q y. ground arith)
      (λ q y. keep-persist w (record s { records = modify id (deactivate now) s.records }))

verified_active :
    (h : ℕ → ℕ) (P : ApiTokenRecord → Type 0) (token later : ℕ) (s : ApiTokenStore) (a : AuthState)
    (r : ApiTokenRecord)
    → All P (values s.records)
    → (verify h token later s a).0 ≡ some r
    → P r × (r.active ≡ true)
verified_active h P token later s a r all v =
    let f = sym (verify-first h token later s a) ∙ v in
    (
      first-All h P (accepts h token later) (values s.records) r all f,
      ground (arith, first_sound h (accepts h token later) (values s.records) r f),
    )

-- Over a registry whose records stand under their identifiers, once `revoke` has said yes no token is
-- accepted as the record revoked, at any time.
pub revoked_rejected :
    (h : ℕ → ℕ) (w : Bool) (now id token later : ℕ) (s : ApiTokenStore) (a : AuthState)
    (r : ApiTokenRecord)
    → IsKeyed s.records
    → (revoke true w now id s).0 ≡ some true
    → (verify h token later (revoke true w now id s).1 a).0 ≡ some r
    → r.id ≢ id
revoked_rejected h w now id token later s a r k y v e =
    let dead =
      subst (λ d. All (λ x. x.id ≡ id → x.active ≡ false) (values d))
        (sym (revoked-records w now id s y)) (modify-dead now id s.records k) in
    let (p, act) =
      verified_active h (λ x. x.id ≡ id → x.active ≡ false) token later ((revoke true w now id s).1)
        a r dead v in
    ground (arith, p e, act)

owned-dead :
    (now user : ℕ) (d : Dict ApiTokenRecord)
    → All (λ r. r.user_id ≡ user → r.active ≡ false) (values (revoke_owned now user d).1)
unfolding revoke_owned
owned-dead now user [] = tt
owned-dead now user ((k, r) ∷ d) = ground (arith, owned-dead now user d)

owned-count :
    (now user : ℕ) (d : Dict ApiTokenRecord)
    → (revoke_owned now user d).0 ≡ length (select (owned user) (values d))
unfolding revoke_owned
owned-count now user [] = refl
owned-count now user ((k, r) ∷ d) = ground (arith, owned-count now user d)

all-records :
    (w : Bool) (now user : ℕ) (s : ApiTokenStore)
    → (revoke_all_for_user true w now user s).1.records ≡ (revoke_owned now user s.records).1
unfolding revoke_all_for_user
all-records w now user s =
    let s' : ApiTokenStore = record s { records = (revoke_owned now user s.records).1 } in
    if_both (λ (t : ApiTokenStore). t.records ≡ (revoke_owned now user s.records).1)
      (ltb 0 (revoke_owned now user s.records).0) (persist w s') s' (keep-persist w s') refl

pub count-some :
    (w : Bool) (now user : ℕ) (s : ApiTokenStore)
    → (revoke_all_for_user true w now user s).0
      ≡ some (length (select (owned user) (values s.records)))
unfolding revoke_all_for_user
count-some w now user s = ap some (owned-count now user s.records)

pub revoked_all :
    (h : ℕ → ℕ) (w : Bool) (now user : ℕ) (s : ApiTokenStore) (token later : ℕ) (a : AuthState)
    (r : ApiTokenRecord)
    → (verify h token later (revoke_all_for_user true w now user s).1 a).0 ≡ some r
    → r.user_id ≢ user
revoked_all h w now user s token later a r v =
    let dead =
      subst (λ d. All (λ x. x.user_id ≡ user → x.active ≡ false) (values d))
        (sym (all-records w now user s)) (owned-dead now user s.records) in
    let (p, act) =
      verified_active h (λ x. x.user_id ≡ user → x.active ≡ false) token later
        ((revoke_all_for_user true w now user s).1) a r dead v in
    λ e. ground (arith, p e, act)

-- The token is refused, or it is not one of the user's.
abbrev pub is_not_of : ℕ → Option ApiTokenRecord → Bool
is_not_of user none = true
is_not_of user (some r) = not (r.user_id == user)

not_of-true :
    (user : ℕ) (o : Option ApiTokenRecord)
    → ((r : ApiTokenRecord) → o ≡ some r → r.user_id ≢ user)
    → is_not_of user o ≡ true
not_of-true user none f = refl
not_of-true user (some r) f = ground (arith, f r refl)

-- Where administration is enabled, `revoke_all_for_user` answers with the number of the user's active
-- tokens, and afterwards a token, at any time, is refused or is not one of the user's.
pub revoke_all-user :
    (h : ℕ → ℕ) (w : Bool) (now user : ℕ) (s : ApiTokenStore) (token later : ℕ) (a : AuthState)
    → let (answer, s') = revoke_all_for_user true w now user s in
      (answer ≡ some (length (select (owned user) (values s.records))))
      × (is_not_of user (verify h token later s' a).0 ≡ true)
revoke_all-user h w now user s token later a = (
  count-some w now user s,
  not_of-true user (verify h token later (revoke_all_for_user true w now user s).1 a).0
      (revoked_all h w now user s token later a),
)
