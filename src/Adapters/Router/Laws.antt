-- ===== src/Adapters/Router/Laws.antt =====
-- The model that is chosen is the best of the healthy ones.
use loom_unified_agentic_cod.Base.{
  ℕ, ◌≤◌, ◌<◌, ◌≡◌, refl, subst, ◌⊎◌, inl, inr, true, false, ◌||◌, List, [], ◌∷◌, arith, ltb, leb,
  ltb→lt, leb→le, if_both, if_cases, contains, All,
}
use loom_unified_agentic_cod.Base.Dict.{lookup}
use loom_unified_agentic_cod.Adapters.Router.{
  TaskType, ModelRouter, is_provider_unhealthy, exhausted, score_model, insert_ranked, sort_ranked,
  scored, candidates, rank_models, first_positive, select_model,
}

-- No entry has a score above that of an entry before it.
abbrev Falling : List (ℕ × ℕ) → Type 0
Falling [] = Unit {0}
Falling (x ∷ xs) = All (λ y. y.1 ≤ x.1) xs × Falling xs

module _ (origin : ℕ) (weighted : ℕ → ModelRouter → ℕ → TaskType → ℕ) where
  insert-All :
      (P : ℕ × ℕ → Type 0) (x : ℕ × ℕ) (ys : List (ℕ × ℕ))
      → P x
      → All P ys
      → All P (insert_ranked origin weighted x ys)
  unfolding insert_ranked
  insert-All P x [] p a = (p, tt)
  insert-All P x (y ∷ ys) p a =
      if_both (All P) (leb y.1 x.1) _ _ (p, a) (a.0, insert-All P x ys p a.1)

  All-insert :
      (P : ℕ × ℕ → Type 0) (x : ℕ × ℕ) (ys : List (ℕ × ℕ))
      → All P (insert_ranked origin weighted x ys)
      → P x × All P ys
  unfolding insert_ranked
  All-insert P x [] a = a
  All-insert P x (y ∷ ys) h =
      if_both (λ zs. All P zs → P x × All P (y ∷ ys)) (leb y.1 x.1) _ _ (λ a. (a.0, a.1))
        (λ a. let (p, b) = All-insert P x ys a.1 in (p, (a.0, b))) h

  All-le : (a b : ℕ) (ys : List (ℕ × ℕ)) → a ≤ b → All (λ y. y.1 ≤ a) ys → All (λ y. y.1 ≤ b) ys
  All-le a b [] h p = tt
  All-le a b (y ∷ ys) h p = (omega (arith, h, p.0), All-le a b ys h p.1)

  insert-Falling :
      (x : ℕ × ℕ) (ys : List (ℕ × ℕ)) → Falling ys → Falling (insert_ranked origin weighted x ys)
  unfolding insert_ranked
  insert-Falling x [] f = (tt, tt)
  insert-Falling x (y ∷ ys) f =
      if_cases Falling (leb y.1 x.1) _ _
        (λ e. let h = leb→le y.1 x.1 e in ((h, All-le y.1 x.1 ys h f.0), f))
        (λ e. (insert-All (λ z. z.1 ≤ y.1) x ys (ground (arith, e)) f.0, insert-Falling x ys f.1))

  sort-Falling : (xs : List (ℕ × ℕ)) → Falling (sort_ranked origin weighted xs)
  unfolding sort_ranked
  sort-Falling [] = tt
  sort-Falling (x ∷ xs) = insert-Falling x (sort_ranked origin weighted xs) (sort-Falling xs)

  All-sort :
      (P : ℕ × ℕ → Type 0) (xs : List (ℕ × ℕ)) → All P (sort_ranked origin weighted xs) → All P xs
  unfolding sort_ranked
  All-sort P [] a = tt
  All-sort P (x ∷ xs) a =
      let (p, b) = All-insert P x (sort_ranked origin weighted xs) a in (p, All-sort P xs b)

  sort-All :
      (P : ℕ × ℕ → Type 0) (xs : List (ℕ × ℕ)) → All P xs → All P (sort_ranked origin weighted xs)
  unfolding sort_ranked
  sort-All P [] a = tt
  sort-All P (x ∷ xs) a = insert-All P x (sort_ranked origin weighted xs) a.0 (sort-All P xs a.1)

  -- The model has a score, and no candidate a higher one.
  abbrev Top : List (ℕ × ℕ) → ℕ × ℕ → Type 0
  Top xs x = (origin < x.1) × All (λ y. y.1 ≤ x.1) xs

  zeros-default :
      (d : ℕ) (xs : List (ℕ × ℕ))
      → All (λ y. y.1 ≤ origin) xs
      → first_positive origin weighted d xs ≡ d
  unfolding first_positive
  zeros-default d [] a = refl
  zeros-default d ((m, s) ∷ xs) a = ground (arith, a.0, zeros-default d xs a.1)

  first-Top :
      (d : ℕ) (P : ℕ × ℕ → Type 0) (xs : List (ℕ × ℕ))
      → Falling xs
      → All P xs
      → ((first_positive origin weighted d xs ≡ d) × All (λ y. y.1 ≤ origin) xs)
        ⊎ ((s : ℕ) × P (first_positive origin weighted d xs, s)
            × Top xs (first_positive origin weighted d xs, s))
  unfolding first_positive
  first-Top d P [] f a = inl (refl, tt)
  first-Top d P ((m, s) ∷ xs) f a =
      if_cases
        (λ r.
          ((r ≡ d) × All (λ y. y.1 ≤ origin) ((m, s) ∷ xs))
          ⊎ ((t : ℕ) × P (r, t) × Top ((m, s) ∷ xs) (r, t)))
        (ltb origin s) _ _ (λ e. inr (s, a.0, (ltb→lt origin s e, (omega arith, f.0))))
        (λ e.
          let z = All-le s origin xs (ground (arith, e)) f.0 in
          inl (zeros-default d xs z, (ground (arith, e), z)))

  All-contains-cons :
      (c : ℕ) (cs ms : List ℕ)
      → All (λ m. contains m cs ≡ true) ms
      → All (λ m. contains m (c ∷ cs) ≡ true) ms
  All-contains-cons c cs [] a = tt
  All-contains-cons c cs (m ∷ ms) a = (ground (arith, a.0), All-contains-cons c cs ms a.1)

  All-contains : (cs : List ℕ) → All (λ m. contains m cs ≡ true) cs
  All-contains [] = tt
  All-contains (c ∷ cs) = (ground arith, All-contains-cons c cs cs (All-contains cs))

  module _ (now : ℕ) (r : ModelRouter) (task : TaskType) where
    scored-All :
        (Q : ℕ → Type 0) (ms : List ℕ)
        → All Q ms
        → All
            (λ y. Q y.0 × (y.1 ≡ score_model origin weighted now r y.0 task))
            (scored origin weighted now r task ms)
    unfolding scored
    scored-All Q [] a = tt
    scored-All Q (m ∷ ms) a = ((a.0, refl), scored-All Q ms a.1)

    All-scored :
        (Q : ℕ → Type 0) (ms : List ℕ)
        → All (λ y. Q y.1) (scored origin weighted now r task ms)
        → All (λ m. Q (score_model origin weighted now r m task)) ms
    unfolding scored
    All-scored Q [] a = tt
    All-scored Q (m ∷ ms) a = (a.0, All-scored Q ms a.1)

    positive-healthy :
        (m : ℕ)
        → origin < score_model origin weighted now r m task
        → (is_provider_unhealthy now m r ≡ false)
          × (exhausted (lookup m r.model_quota_headroom) ≡ false)
    unfolding score_model
    positive-healthy m =
        if_cases
          (λ s.
            origin < s
            → (is_provider_unhealthy now m r ≡ false)
              × (exhausted (lookup m r.model_quota_headroom) ≡ false))
          (is_provider_unhealthy now m r || exhausted (lookup m r.model_quota_headroom)) _ _
          (λ e h. ground (arith, h)) (λ e h. ground (arith, e))

    -- The model that is selected is a candidate that is healthy, has quota left and has a positive score, no
    -- candidate having a higher one; only where no candidate has a positive score is it the default model.
    pub select_model-best :
        (excluded : List ℕ)
        → let m = select_model origin weighted now task excluded r in
          let cs = candidates origin weighted excluded r in
          ((m ≡ r.default_model) × All (λ c. score_model origin weighted now r c task ≤ origin) cs)
          ⊎ ((contains m cs ≡ true)
              × (is_provider_unhealthy now m r ≡ false)
              × (exhausted (lookup m r.model_quota_headroom) ≡ false)
              × (origin < score_model origin weighted now r m task)
              × All
                  (λ c.
                    score_model origin weighted now r c task
                    ≤ score_model origin weighted now r m task)
                  cs)
    unfolding select_model rank_models
    select_model-best excluded =
        let cs = candidates origin weighted excluded r in
        let xs = scored origin weighted now r task cs in
        let m = select_model origin weighted now task excluded r in
        let P = λ (y : ℕ × ℕ).
          (contains y.0 cs ≡ true) × (y.1 ≡ score_model origin weighted now r y.0 task) in
        elim (first-Top r.default_model P (sort_ranked origin weighted xs) (sort-Falling xs)
          (sort-All P xs (scored-All (λ c. contains c cs ≡ true) cs (All-contains cs)))) [
            | inl (e, z) ↦
                inl (e, All-scored (λ s. s ≤ origin) cs (All-sort (λ y. y.1 ≤ origin) xs z))
            | inr (s, (c, q), (h, top)) ↦
                let h' = subst (λ t. origin < t) q h in
                let (a, b) = positive-healthy m h' in
                let top' = subst (λ t. All (λ y. y.1 ≤ t) xs) q (All-sort (λ y. y.1 ≤ s) xs top) in
                inr (
                  c,
                  a,
                  b,
                  h',
                  All-scored (λ t. t ≤ score_model origin weighted now r m task) cs top',
                )
          ]
