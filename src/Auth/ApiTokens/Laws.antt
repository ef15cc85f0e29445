-- ===== src/Auth/ApiTokens/Laws.antt =====
-- What a token proves, from its issue to its expiry.
use loom_unified_agentic_cod.Base.{
  ℕ, zero, suc, ◌+◌, ◌≡◌, refl, ap, ◌∙◌, inl, inr, Bool, true, false, not, ◌&&◌, ◌||◌, Option, none,
  some, List, [], ◌∷◌, arith, ltb, ◌==◌, if◌then◌else◌, if_both, Option-cases, length, select,
  sum_of, All,
}
use loom_unified_agentic_cod.Base.Dict.{Dict, insert, values}
use loom_unified_agentic_cod.Auth.Context.{
  AuthState, AuthenticatedPrincipal, set_principal, clear_principal,
}
use loom_unified_agentic_cod.Auth.ApiTokens.{
  ApiTokenRecord, ApiTokenStore, issued, is_expired, persist, new_record, issue_with, issue,
  accepts, principal_of, first, accepted, verify, list_active, list_active_for_user, count, matches,
}

abbrev pub principal? : (ℕ → ℕ) → Option ApiTokenRecord → Option AuthenticatedPrincipal
principal? h none = none
principal? h (some r) = some (principal_of h r)

-- Within a request, the identity after `verify` is that of the record it returns, and none where it
-- returns none, whatever the identity was before.
pub verify-identity :
    (h : ℕ → ℕ) (token now : ℕ) (s : ApiTokenStore) (a : AuthState)
    → a.request_auth_context ≡ true
    → let (r, a') = verify h token now s a in a'.principal ≡ principal? h r
unfolding verify accepted set_principal clear_principal
verify-identity h token now s a e =
    elim (Option-cases (first h (accepts h token now) (values s.records))) [
      | inl q ↦ ground arith
      | inr (r, q) ↦ ground arith
    ]

pub first_sound :
    (h : ℕ → ℕ) (p : ApiTokenRecord → Bool) (xs : List ApiTokenRecord) (x : ApiTokenRecord)
    → first h p xs ≡ some x
    → p x ≡ true
first_sound h p [] x e = ground arith
first_sound h p (y ∷ ys) x e = ground (arith, first_sound h p ys x)

-- `first` of a list that has no entry passing the test.
first-absent :
    (h : ℕ → ℕ) (p : ApiTokenRecord → Bool) (xs : List ApiTokenRecord)
    → All (λ x. p x ≡ false) xs
    → first h p xs ≡ none
first-absent h p [] a = refl
first-absent h p (x ∷ xs) a = ground (arith, first-absent h p xs)

first-none :
    (h : ℕ → ℕ) (p : ApiTokenRecord → Bool) (r : ApiTokenRecord) (k : ℕ) (d : Dict ApiTokenRecord)
    → All (λ x. p x ≡ false) (values d)
    → first h p (values (insert k r d)) ≡ (if p r then some r else none)
first-none h p r k [] a = refl
first-none h p r k ((j, x) ∷ d) a =
    ground (arith, first-none h p r k d, first-absent h p (values d))

-- No record of the registry has the hash of the token.
abbrev pub Unknown : (ℕ → ℕ) → ℕ → ApiTokenStore → Type 0
Unknown h token s = All (λ r. (r.token_hash == h token) ≡ false) (values s.records)

pub keep-persist : (w : Bool) (s : ApiTokenStore) → (persist w s).records ≡ s.records
unfolding persist
keep-persist w s = if_both (λ (t : ApiTokenStore). t.records ≡ s.records) w _ s refl refl

accepts-not :
    (h : ℕ → ℕ) (token now : ℕ) (xs : List ApiTokenRecord)
    → All (λ r. (r.token_hash == h token) ≡ false) xs
    → All (λ r. accepts h token now r ≡ false) xs
accepts-not h token now [] a = tt
accepts-not h token now (x ∷ xs) a = (ground arith, accepts-not h token now xs a.1)

pub verify-first :
    (h : ℕ → ℕ) (token now : ℕ) (s : ApiTokenStore) (a : AuthState)
    → (verify h token now s a).0 ≡ first h (accepts h token now) (values s.records)
unfolding verify accepted
verify-first h token now s a =
    elim (Option-cases (first h (accepts h token now) (values s.records))) [
      | inl q ↦ ground arith
      | inr (r, q) ↦ ground arith
    ]

accepts-new :
    (h : ℕ → ℕ) (id token user org now ttl later : ℕ)
    → accepts h token later (new_record h id token user org now ttl)
      ≡ (ttl == 0 || ltb later (now + ttl))
accepts-new h id token user org now zero later = ground arith
accepts-new h id token user org now (suc ttl) later = ground arith

-- A token whose hash no other record has, issued where administration is enabled and the lifetime is
-- readable, verifies as the record issued until its lifetime has passed, and never after; a lifetime of
-- zero does not pass.
pub issue-verify :
    (h : ℕ → ℕ) (w : Bool) (id token user org now ttl later : ℕ) (s : ApiTokenStore) (a : AuthState)
    → Unknown h token s
    → let (i, s') = issue h true (some ttl) w id token user org now s in
      let r = new_record h id token user org now ttl in
      (i ≡ issued r)
      × ((verify h token later s' a).0
          ≡ (if ttl == 0 || ltb later (now + ttl) then some r else none))
unfolding issue issue_with
issue-verify h w id token user org now ttl later s a u =
    let r = new_record h id token user org now ttl in
    let s1 : ApiTokenStore = record s { records = insert id r s.records } in
    (
      refl,
      verify-first h token later (persist w s1) a
          ∙ ap (λ d. first h (accepts h token later) (values d)) (keep-persist w s1)
          ∙ first-none h (accepts h token later) r id s.records (accepts-not h token later _ u)
          ∙ ap (λ b. if b then some r else none) (accepts-new h id token user org now ttl later),
    )

counted :
    (now : ℕ) (xs : List ApiTokenRecord)
    → sum_of (λ r. if r.active && not (is_expired r now) then 1 else 0) xs
      ≡ length (
          select
            (λ r.
              r.active && not (is_expired r now) && matches none r.org_id && matches none r.user_id)
            xs)
counted now [] = refl
counted now (x ∷ xs) = ground (arith, counted now xs)

same_owner :
    (now user : ℕ) (xs : List ApiTokenRecord)
    → select
        (λ r.
          r.active
          && not (is_expired r now)
          && matches none r.org_id
          && matches (some user) r.user_id)
        xs
      ≡ select (λ r. r.user_id == user && r.active && not (is_expired r now)) xs
same_owner now user [] = refl
same_owner now user (x ∷ xs) = ground (arith, same_owner now user xs)

abbrev length? : Option (List ApiTokenRecord) → Option ℕ
length? none = none
length? (some xs) = some (length xs)

-- Where administration is enabled the count is the number of tokens that the unfiltered listing shows,
-- and the listing filtered by a user is that user's list.
pub listings-agree :
    (now user : ℕ) (s : ApiTokenStore)
    → (some (count now s) ≡ length? (list_active true now none none s))
      × (list_active true now none (some user) s ≡ list_active_for_user true now user s)
unfolding list_active list_active_for_user count
listings-agree now user s =
    (ap some (counted now (values s.records)), ap some (same_owner now user (values s.records)))
