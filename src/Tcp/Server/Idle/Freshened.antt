-- ===== src/Tcp/Server/Idle/Freshened.antt =====
-- flconc/net/tcp: the time wheel behind the tasks that put slots into its last bucket.
use flconc.Base.{
  ℕ, zero, suc, ◌≡◌, refl, sym, ap, ◌∙◌, inl, inr, true, List, [], ◌∷◌, ◌++◌, some, ◌==◌, length,
  drop, arith, Returns, Bool-cases, ==_refl, ==_iff, subst,
}
use flconc.Tcp.TimeWheel.{Wheel, contains, held, fresh, contains-append}
use flconc.Tcp.Server.Idle.{fresh_all}

-- `fresh` on a wheel with a bucket.
add_last : ℕ → List ℕ → Wheel → Wheel
add_last t b [] = (b ++ t ∷ []) ∷ []
add_last t b (c ∷ w) = b ∷ add_last t c w

fresh-add_last : (t : ℕ) (b : List ℕ) (w : Wheel) → fresh t (b ∷ w) ≡ some (add_last t b w)
unfolding fresh add_last
fresh-add_last t b [] = refl
fresh-add_last t b (c ∷ w) = simp (fresh-add_last t c w)

length-add_last : (t : ℕ) (b : List ℕ) (w : Wheel) → length (add_last t b w) ≡ suc (length w)
unfolding add_last
length-add_last t b [] = refl
length-add_last t b (c ∷ w) = ap suc (length-add_last t c w)

-- What stands behind the first buckets stays there.
add_last-held :
    (s k t : ℕ) (b : List ℕ) (w : Wheel)
    → held s (drop k (b ∷ w)) ≡ true
    → held s (drop k (add_last t b w)) ≡ true
unfolding add_last
add_last-held s zero t b [] h = ground (arith, contains-append s b (t ∷ []))
add_last-held s (suc k) t b [] h = h
add_last-held s zero t b (c ∷ w) h = ground (arith, add_last-held s 0 t c w)
add_last-held s (suc k) t b (c ∷ w) h = add_last-held s k t c w h

-- The slot itself stands in the last bucket.
add_last-last : (s : ℕ) (b : List ℕ) (w : Wheel) → held s (drop (length w) (add_last s b w)) ≡ true
unfolding add_last
add_last-last s b [] = ground (arith, contains-append s b (s ∷ []), ==_refl s)
add_last-last s b (c ∷ w) = add_last-last s c w

module _ (s n : ℕ) where
  fresh-safe :
      (t : ℕ) (w : Wheel)
      → length w ≡ suc n
      → Returns (fresh t w) (λ w'.
        (length w' ≡ suc n)
        × ((k : ℕ) → held s (drop k w) ≡ true → held s (drop k w') ≡ true)
        × ((t == s) ≡ true → held s (drop n w') ≡ true))
  fresh-safe t [] l = absurd (omega arith)
  fresh-safe t (b ∷ w) l = (
    add_last t b w,
    fresh-add_last t b w,
    (
      length-add_last t b w ∙ l,
      λ k h. add_last-held s k t b w h,
      λ e.
          subst (λ m. held s (drop m (add_last t b w)) ≡ true) (omega (arith, l))
            (subst (λ x. held s (drop (length w) (add_last x b w)) ≡ true) (sym ((==_iff t s).0 e))
              (add_last-last s b w)),
    ),
  )

  -- The wheel keeps its length and what it holds, and holds the slots of the tasks in its last bucket.
  pub fresh_all-safe :
      (ts : List ℕ) (w : Wheel)
      → length w ≡ suc n
      → Returns (fresh_all ts w) (λ w'.
        (length w' ≡ suc n)
        × ((k : ℕ) → held s (drop k w) ≡ true → held s (drop k w') ≡ true)
        × (contains s ts ≡ true → held s (drop n w') ≡ true))
  unfolding fresh_all
  fresh_all-safe [] w l = (w, refl, (l, (λ k h. h), λ e. absurd (cc e)))
  fresh_all-safe (t ∷ ts) w l =
      let (w₁, e, (l₁, keep, last)) = fresh-safe t w l in
      let (w₂, f, (l₂, keep', last')) = fresh_all-safe ts w₁ l₁ in
      (
        w₂,
        simp (e, f),
        (
          l₂,
          (λ k h. keep' k (keep k h)),
          λ c. elim (Bool-cases (t == s)) [ inl x ↦ keep' n (last x) | inr x ↦ last' (rw x at c) ],
        ),
      )
