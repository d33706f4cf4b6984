-- ===== src/Comm/StringUtil.antt =====
-- flconc/comm/string_util.cc: `SplitStrToVector`. `none` is the exception that `substr` throws when it
-- starts behind the end. The loop runs on fuel: the rounds left are the length of the string.
use mathlib.Core.Option.{some-injective}
use flconc.Base.{
  ℕ, zero, suc, ◌+◌, ◌-◌, Bool, false, Bytes, List, [], ◌∷◌, ◌++◌, Option, none, some, ltb, ◌==◌,
  ◌||◌, if◌then◌else◌, ◌>>=◌, is_empty, same_bytes, length, take, drop, length-drop, ◌≤◌, ◌<◌, ◌≡◌,
  refl, ap, arith, Bool-cases, Option-cases, inl, inr,
}

abbrev pub is_one_of : ℕ → Bytes → Bool
is_one_of c [] = false
is_one_of c (x ∷ xs) = c == x || is_one_of c xs

-- `find_first_of`: the first character that is one of those given.
unfoldable pub find_first_of : Bytes → Bytes → Option ℕ
find_first_of split [] = none
find_first_of split (c ∷ cs) =
    let rest = find_first_of split cs in
    if is_one_of c split then some 0 else do i ← rest; some (suc i)

-- `tmp.substr(pos)`
unfoldable pub substr_from : Bytes → ℕ → Option Bytes
substr_from tmp pos = if ltb (length tmp) pos then none else some (drop pos tmp)

abbrev pub push_some : Bytes → List Bytes → List Bytes
push_some [] res = res
push_some (c ∷ cs) res = (c ∷ cs) ∷ res

-- One round: the piece before the first separator, and the loop on what is behind it.
unfoldable pub split_round :
    Bytes → Bytes → (Bytes → Option (List Bytes)) → Option ℕ → Option (List Bytes)
split_round split tmp loop none = some []
split_round split tmp loop (some i) = do
  rest ← substr_from tmp (i + length split)
  res ← loop rest
  some (push_some (take i tmp) res)

-- The loop, with so many rounds left.
unfoldable pub split_rounds : ℕ → Bytes → Bytes → Option (List Bytes)
split_rounds zero split tmp = some []
split_rounds (suc rounds) split tmp =
    split_round split tmp (split_rounds rounds split) (find_first_of split tmp)

-- The string with the separator at its end; `substr` throws when the string is the shorter one.
unfoldable pub with_split : Bytes → Bytes → Option Bytes
with_split split tmp =
    if ltb (length tmp) (length split)
    then none
    else if same_bytes (drop (length tmp - length split) tmp) split
    then some tmp
    else some (tmp ++ split)

-- The pieces that are pushed to `res`.
unfoldable pub split_str_to_vector : Bytes → Bytes → Option (List Bytes)
split_str_to_vector str split =
    if is_empty str || is_empty split
    then some []
    else do tmp ← with_split split str; split_rounds (length tmp) split tmp

substr_from-length :
    (tmp rest : Bytes) (k r : ℕ)
    → substr_from tmp k ≡ some rest
    → 0 < k
    → length tmp ≤ suc r
    → length rest ≤ r
unfolding substr_from
substr_from-length tmp rest k r e p h = elim (Bool-cases (ltb (length tmp) k)) [
  | inl l ↦ cc (rw l at e)
  | inr l ↦
      let is : drop k tmp ≡ rest = some-injective _ _ (rw l at e) in
      omega (arith, ap length is, length-drop k tmp, p, h)
]

-- A round more than the string is long changes nothing: the rounds of `split_str_to_vector` are enough.
pub split_rounds-enough :
    (r : ℕ) (split tmp : Bytes)
    → 0 < length split
    → length tmp ≤ r
    → split_rounds (suc r) split tmp ≡ split_rounds r split tmp
unfolding split_rounds split_round
split_rounds-enough zero split [] p h = unfold find_first_of in refl
split_rounds-enough zero split (c ∷ tmp) p h = absurd (omega arith)
split_rounds-enough (suc r) split tmp p h = elim (Option-cases (find_first_of split tmp)) [
  | inl n ↦ rw n refl
  | inr (i, n) ↦ elim (Option-cases (substr_from tmp (i + length split))) [
    | inl m ↦ rw (n, m) refl
    | inr (rest, m) ↦
        let shorter = substr_from-length tmp rest (i + length split) r m (omega (arith, p)) h in
        rw (n, m) (rw (split_rounds-enough r split rest p shorter) refl)
  ]
]
