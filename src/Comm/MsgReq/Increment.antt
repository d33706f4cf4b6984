-- ===== src/Comm/MsgReq/Increment.antt =====
-- flconc/comm/msg_req.cc: the increment of a decimal string adds one to its number.
use native.Mathlib.Nat.{pow-zero, pow-succ'}
use flconc.Base.{
  subst, ℕ, zero, suc, ◌+◌, ◌-◌, ◌*◌, ◌^◌, ◌≤◌, ◌<◌, ◌≡◌, ◌≢◌, refl, sym, ap, ◌∙◌, inl, inr, Bytes,
  [], ◌∷◌, ◌++◌, none, some, ◌==◌, Bool-cases, Option-cases, ==_iff, arith, length, get_or, take,
  drop, replicate, length-append, length-replicate, length-take, split_at, drop-step, set-append,
  append_assoc,
}
use flconc.Comm.MsgReq.{skip_nines, zero_out, carry, increment}

-- The number that a string of digits stands for.
unfoldable pub value : Bytes → ℕ
value [] = 0
value (d ∷ ds) = (d - b'0') * 10 ^ length ds + value ds

abbrev pub IsDigit : ℕ → Type 0
IsDigit d = (b'0' ≤ d) × (d ≤ b'9')

pub data IsNumber : Bytes → Type 0 where
  nil : IsNumber []
  cons : {d : ℕ} {ds : Bytes} → IsDigit d → IsNumber ds → IsNumber (d ∷ ds)

abbrev pub nines : ℕ → Bytes
nines k = replicate k b'9'

abbrev zeros : ℕ → Bytes
zeros k = replicate k b'0'

-- A number that is not all nines, around its last digit that is none.
pub record Around (nu : Bytes) : Type 0 where
  pub before : Bytes
  pub d : ℕ
  pub behind : ℕ
  pub parts : nu ≡ before ++ (d ∷ nines behind)
  pub smaller : d ≢ b'9'

pub length-nines : (k : ℕ) → length (nines k) ≡ k
length-nines k = length-replicate k b'9'

length-zeros : (k : ℕ) → length (zeros k) ≡ k
length-zeros k = length-replicate k b'0'

pub value-nines : (k : ℕ) → value (nines k) + 1 ≡ 10 ^ k
unfolding value
value-nines zero = rw (pow-zero 10)
value-nines (suc k) =
    omega (arith, value-nines k, pow-succ' 10 k, ap (λ j. 10 ^ j) (length-nines k))

value-zeros : (k : ℕ) → value (zeros k) ≡ 0
unfolding value
value-zeros zero = refl
value-zeros (suc k) = omega (arith, value-zeros k)

value-step :
    (before : Bytes) (d k : ℕ)
    → b'0' ≤ d
    → value (before ++ ((d + 1) ∷ zeros k)) ≡ value (before ++ (d ∷ nines k)) + 1
unfolding value
value-step [] d k h =
    let e : d + 1 - b'0' ≡ d - b'0' + 1 = omega arith in
    rw (length-zeros k, length-nines k)
      (omega (arith, value-zeros k, value-nines k, ap (λ (t : ℕ). t * 10 ^ k) e))
value-step (x ∷ before) d k h = omega (
  arith,
  value-step before d k h,
  ap (λ j. (x - b'0') * 10 ^ j)
      (length-append before ((d + 1) ∷ zeros k)
        ∙ ap (λ j. length before + suc j) (length-zeros k ∙ sym (length-nines k))
        ∙ sym (length-append before (d ∷ nines k))),
)

zero_out-append :
    (before : Bytes) (k j : ℕ) (ys : Bytes)
    → j ≡ length before
    → k ≡ length ys
    → zero_out k j (before ++ ys) ≡ before ++ zeros k
unfolding zero_out
zero_out-append before zero j [] e l = refl
zero_out-append before zero j (y ∷ ys) e l = absurd (omega arith)
zero_out-append before (suc k) j [] e l = absurd (omega arith)
zero_out-append before (suc k) j (y ∷ ys) e l =
    rw (e, set-append before ys y b'0', ← append_assoc before (b'0' ∷ []) ys)
      (zero_out-append (before ++ b'0' ∷ []) k (length before + 1) ys
          (omega (arith, length-append before (b'0' ∷ []))) (omega arith)
        ∙ append_assoc before (b'0' ∷ []) (zeros k))

-- Behind `n` stand nines only.
abbrev NinesFrom : Bytes → ℕ → Type 0
NinesFrom nu n = drop n nu ≡ nines (length nu - n)

NinesFrom-step :
    (nu : Bytes) (n : ℕ)
    → n < length nu
    → get_or nu n 0 ≡ b'9'
    → NinesFrom nu (suc n)
    → NinesFrom nu n
NinesFrom-step nu n l nine e =
    let m : length nu - n ≡ suc (length nu - suc n) = omega arith in
    rw (drop-step n nu 0 l, nine, e, m)

-- The loop stops at the last digit that is no nine.
skip_nines-finds :
    (nu : Bytes) (n i : ℕ)
    → n ≤ length nu
    → NinesFrom nu n
    → skip_nines nu n ≡ some i
    → (i < length nu) × NinesFrom nu (suc i) × (get_or nu i 0 ≢ b'9')
unfolding skip_nines
skip_nines-finds nu zero i l e h = cc
skip_nines-finds nu (suc n) i l e h = elim (Bool-cases (get_or nu n 0 == b'9')) [
  | inl nine ↦
      skip_nines-finds nu n i (omega arith) (NinesFrom-step nu n l ((==_iff _ b'9').0 nine) e)
        (rw nine at h)
  | inr other ↦ let found : n ≡ i = ground arith in rw (← found) (l, e, ground arith)
]

-- It runs off the front only at all nines.
skip_nines-none :
    (nu : Bytes) (n : ℕ)
    → n ≤ length nu
    → NinesFrom nu n
    → skip_nines nu n ≡ none
    → nu ≡ nines (length nu)
unfolding skip_nines
skip_nines-none nu zero l e h =
    let same : length nu - 0 ≡ length nu = omega arith in e ∙ ap nines same
skip_nines-none nu (suc n) l e h = elim (Bool-cases (get_or nu n 0 == b'9')) [
  | inl nine ↦
      skip_nines-none nu n (omega arith) (NinesFrom-step nu n l ((==_iff _ b'9').0 nine) e)
        (rw nine at h)
  | inr other ↦ ground arith
]

drop-length : (nu : Bytes) → drop (length nu) nu ≡ []
drop-length [] = refl
drop-length (x ∷ nu) = drop-length nu

NinesFrom-end : (nu : Bytes) → NinesFrom nu (length nu)
NinesFrom-end nu =
    let none_left : 0 ≡ length nu - length nu = omega arith in drop-length nu ∙ ap nines none_left

get_or-append : (before ds : Bytes) (d : ℕ) → get_or (before ++ d ∷ ds) (length before) 0 ≡ d
get_or-append [] ds d = refl
get_or-append (x ∷ before) ds d = get_or-append before ds d

carry-append :
    (before : Bytes) (d k i : ℕ)
    → i ≡ length before
    → carry (before ++ (d ∷ nines k)) (some i) ≡ before ++ ((d + 1) ∷ zeros k)
unfolding carry
carry-append before d k i e =
    let rounds : length (before ++ (d ∷ nines k)) - (length before + 1) ≡ k =
      omega (arith, length-append before (d ∷ nines k), length-nines k) in
    rw
      (
        e,
        get_or-append before (nines k) d,
        set-append before (nines k) d (d + 1),
        ← append_assoc before ((d + 1) ∷ []) (nines k),
        rounds,
      )
      (zero_out-append (before ++ (d + 1) ∷ []) k (length before + 1) (nines k)
          (omega (arith, length-append before ((d + 1) ∷ []))) (omega (arith, length-nines k))
        ∙ append_assoc before ((d + 1) ∷ []) (zeros k))

increment-Around :
    (nu : Bytes)
    → nu ≢ nines (length nu)
    → (a : Around nu) × (increment nu ≡ a.before ++ ((a.d + 1) ∷ zeros a.behind))
unfolding increment
increment-Around nu h = elim (Option-cases (skip_nines nu (length nu))) [
  | inl e ↦ absurd (h (skip_nines-none nu (length nu) (omega arith) (NinesFrom-end nu) e))
  | inr (i, e) ↦
      let (l, rest, other) = skip_nines-finds nu (length nu) i (omega arith) (NinesFrom-end nu) e in
      let k = length nu - suc i in
      let d = get_or nu i 0 in
      let whole : nu ≡ take i nu ++ (d ∷ nines k) =
        split_at i nu 0 l ∙ ap (λ t. take i nu ++ (d ∷ t)) rest in
      (
        record { before = take i nu; d = d; behind = k; parts = whole; smaller = other },
        rw e (
            ap (λ t. carry t (some i)) whole
            ∙ carry-append (take i nu) d k i (omega (arith, length-take i nu))),
      )
]

IsNumber-tail : (before ds : Bytes) → IsNumber (before ++ ds) → IsNumber ds
IsNumber-tail [] ds n = n
IsNumber-tail (x ∷ before) ds (cons h n) = IsNumber-tail before ds n

IsNumber-zeros : (k : ℕ) → IsNumber (zeros k)
IsNumber-zeros zero = nil
IsNumber-zeros (suc k) = cons (omega arith) (IsNumber-zeros k)

IsNumber-step :
    (before : Bytes) (d k : ℕ)
    → d ≢ b'9'
    → IsNumber (before ++ (d ∷ nines k))
    → (b'0' ≤ d) × IsNumber (before ++ ((d + 1) ∷ zeros k))
IsNumber-step [] d k s (cons h n) = (h.0, cons (omega arith) (IsNumber-zeros k))
IsNumber-step (x ∷ before) d k s (cons h n) =
    let (low, rest) = IsNumber-step before d k s n in (low, cons h rest)

pub increment_lem :
    (nu : Bytes)
    → IsNumber nu
    → nu ≢ nines (length nu)
    → IsNumber (increment nu)
      × (length (increment nu) ≡ length nu)
      × (value (increment nu) ≡ value nu + 1)
increment_lem nu n h =
    let (a, e) = increment-Around nu h in
    let held : IsNumber (a.before ++ (a.d ∷ nines a.behind)) = subst IsNumber a.parts n in
    let (low, up) = IsNumber-step a.before a.d a.behind a.smaller held in
    (
      subst IsNumber (sym e) up,
      omega (
        arith,
        ap length e,
        ap length a.parts,
        length-append a.before ((a.d + 1) ∷ zeros a.behind),
        length-append a.before (a.d ∷ nines a.behind),
        length-nines a.behind,
        length-zeros a.behind,
      ),
      ap value e ∙ value-step a.before a.d a.behind low ∙ ap (λ t. value t + 1) (sym a.parts),
    )
