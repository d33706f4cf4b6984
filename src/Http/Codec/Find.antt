-- ===== src/Http/Codec/Find.antt =====
-- flconc/net/http/http_codec.cc: what is found in a part of a string is found in the whole.
use mathlib.Core.Option.{some-injective}
use flconc.Base.{
  ℕ, suc, ◌+◌, ◌≤◌, ◌≡◌, refl, ap, ◌&&◌, true, Bytes, [], ◌∷◌, ◌++◌, none, some, arith, length,
  ◌==◌, ==_refl, Bool-cases, Option-cases, inl, inr,
}
use flconc.Http.Message.{is_prefix, find_str, find_last_of}

is_prefix-length : (p xs : Bytes) → is_prefix p xs ≡ true → length p ≤ length xs
is_prefix-length [] xs h = omega arith
is_prefix-length (x ∷ p) [] h = cc
is_prefix-length (x ∷ p) (y ∷ xs) h = elim (Bool-cases (x == y)) [
  | inl e ↦ omega (arith, is_prefix-length p xs (rw e at h))
  | inr e ↦ cc (rw e at h)
]

is_prefix-append :
    (p xs ys : Bytes) → length p ≤ length xs → is_prefix p (xs ++ ys) ≡ is_prefix p xs
is_prefix-append [] xs ys h = refl
is_prefix-append (x ∷ p) [] ys h = absurd (omega arith)
is_prefix-append (x ∷ p) (y ∷ xs) ys h =
    ap (λ b. x == y && b) (is_prefix-append p xs ys (omega arith))

find_str-length : (p xs : Bytes) (i : ℕ) → find_str p xs ≡ some i → i + length p ≤ length xs
unfolding find_str
find_str-length p [] i h = cc
find_str-length p (c ∷ cs) i h = elim (Bool-cases (is_prefix p (c ∷ cs))) [
  | inl e ↦
      let z : 0 ≡ i = some-injective _ _ (rw e at h) in
      omega (arith, z, is_prefix-length p (c ∷ cs) e)
  | inr e ↦ elim (Option-cases (find_str p cs)) [
    | inl n ↦ cc (rw (e, n) at h)
    | inr (j, n) ↦
        let z : suc j ≡ i = some-injective _ _ (rw (e, n) at h) in
        omega (arith, z, find_str-length p cs j n)
  ]
]

-- What is found in a string is found at the same place when more follows.
pub find_str-append :
    (p xs ys : Bytes) (i : ℕ) → find_str p xs ≡ some i → find_str p (xs ++ ys) ≡ some i
unfolding find_str
find_str-append p [] ys i h = cc
find_str-append p (c ∷ cs) ys i h =
    let inside : length p ≤ length (c ∷ cs) = omega (arith, find_str-length p (c ∷ cs) i h) in
    let same : is_prefix p (c ∷ (cs ++ ys)) ≡ is_prefix p (c ∷ cs) =
      is_prefix-append p (c ∷ cs) ys inside in
    elim (Bool-cases (is_prefix p (c ∷ cs))) [
      | inl e ↦ simp (same, e) (rw e at h)
      | inr e ↦ elim (Option-cases (find_str p cs)) [
        | inl n ↦ cc (rw (e, n) at h)
        | inr (j, n) ↦ simp (same, e, find_str-append p cs ys j n) (rw (e, n) at h)
      ]
    ]

-- The last of a character, when none follows it.
pub find_last_of-last :
    (x : ℕ) (xs ys : Bytes)
    → find_last_of x ys ≡ none
    → find_last_of x (xs ++ x ∷ ys) ≡ some (length xs)
unfolding find_last_of
find_last_of-last x [] ys h = simp (h, ==_refl x)
find_last_of-last x (c ∷ xs) ys h = simp (find_last_of-last x xs ys h)
