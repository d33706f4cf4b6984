-- ===== src/Comm/MsgReq/Count.antt =====
-- flconc/comm/msg_req.cc: the numbers count.
use flconc.Base.{
  is_empty-long, same_bytes, same_bytes→eq, same_bytes_refl, is_empty, ◌||◌, ℕ, zero, suc, ◌+◌, ◌^◌,
  ◌<◌, ◌≡◌, ◌≢◌, refl, sym, ap, ap₂, ◌∙◌, inl, inr, ◌⊎◌, Bytes, List, [], ◌∷◌, true, false, map,
  Bool-cases, ==_iff, arith, length, length-map,
}
use flconc.Comm.MsgReq.{MsgReqUtil, increment, digit, refresh, gen_msg_number}
use flconc.Comm.MsgReq.Increment.{value, IsNumber, nil, cons, nines, value-nines, increment_lem}

-- The digits and the length survive, and the number grows by one.
pub record Ready (u : MsgReqUtil) : Type 0 where
  pub number : IsNumber u.t_msg_req_nu
  pub sized : length u.t_msg_req_nu ≡ u.m_msg_req_len
  pub nonempty : 0 < u.m_msg_req_len
  pub top : u.t_max_msg_req_nu ≡ nines u.m_msg_req_len

not-nines :
    (u : MsgReqUtil)
    → Ready u
    → value u.t_msg_req_nu + 1 < 10 ^ u.m_msg_req_len
    → u.t_msg_req_nu ≢ nines (length u.t_msg_req_nu)
not-nines u r h e =
    omega (arith, ap value e, value-nines (length u.t_msg_req_nu), ap (λ j. 10 ^ j) r.sized)

same_bytes-false : (xs ys : Bytes) → xs ≢ ys → same_bytes xs ys ≡ false
same_bytes-false xs ys h = elim (Bool-cases (same_bytes xs ys)) [
  | inl e ↦ absurd (h (same_bytes→eq xs ys e))
  | inr e ↦ e
]

gen-increment :
    (u : MsgReqUtil)
    → Ready u
    → value u.t_msg_req_nu + 1 < 10 ^ u.m_msg_req_len
    → gen_msg_number u
      ≡ (increment u.t_msg_req_nu, record u { t_msg_req_nu = increment u.t_msg_req_nu })
unfolding gen_msg_number
gen-increment u r h = rw (
  is_empty-long u.t_msg_req_nu (omega (arith, r.sized, r.nonempty)),
  same_bytes-false u.t_msg_req_nu u.t_max_msg_req_nu
      (λ e. not-nines u r h (e ∙ r.top ∙ ap nines (sym r.sized))),
)

-- Short of all nines the next number is one more, and the generator is ready again.
pub gen_msg_number-counts :
    (u : MsgReqUtil)
    → Ready u
    → value u.t_msg_req_nu + 1 < 10 ^ u.m_msg_req_len
    → let (nu, u') = gen_msg_number u in
      Ready u'
      × (nu ≡ u'.t_msg_req_nu)
      × (value nu ≡ value u.t_msg_req_nu + 1)
      × (u'.m_msg_req_len ≡ u.m_msg_req_len)
gen_msg_number-counts u r h =
    let (n, l, v) = increment_lem u.t_msg_req_nu r.number (not-nines u r h) in
    rw (gen-increment u r h) (
      record { number = n; sized = l ∙ r.sized; nonempty = r.nonempty; top = r.top },
      refl,
      v,
      refl,
    )

-- The first `k` numbers that the generator hands out.
pub draws : ℕ → MsgReqUtil → List Bytes
draws zero u = []
draws (suc k) u = let (nu, u') = gen_msg_number u in nu ∷ draws k u'

pub count_up : ℕ → ℕ → List ℕ
count_up v zero = []
count_up v (suc k) = v ∷ count_up (v + 1) k

-- As long as `k` more numbers fit, the next `k` count up by one, so no number is given twice.
pub draws-count_up :
    (k : ℕ) (u : MsgReqUtil)
    → Ready u
    → value u.t_msg_req_nu + k < 10 ^ u.m_msg_req_len
    → map value (draws k u) ≡ count_up (value u.t_msg_req_nu + 1) k
unfolding draws count_up
draws-count_up zero u r h = refl
draws-count_up (suc k) u r h =
    let (r', e, v, l) = gen_msg_number-counts u r (omega arith) in
    let w : value (gen_msg_number u).1.t_msg_req_nu ≡ value u.t_msg_req_nu + 1 =
      ap value (sym e) ∙ v in
    let rest = draws-count_up k (gen_msg_number u).1 r' (omega (arith, w, ap (λ j. 10 ^ j) l)) in
    ap₂ ◌∷◌ v (rest ∙ ap (λ t. count_up (t + 1) k) w)

IsNumber-digits : (res : Bytes) → IsNumber (map digit res)
IsNumber-digits [] = nil
IsNumber-digits (x ∷ res) = cons (omega arith) (IsNumber-digits res)

starts : (nu top : Bytes) → (nu ≡ []) ⊎ (nu ≡ top) → (is_empty nu || same_bytes nu top) ≡ true
starts [] top s = refl
starts (x ∷ nu) top (inl e) = cc
starts (x ∷ nu) top (inr e) = rw (← e) (same_bytes_refl (x ∷ nu))

-- A generator that has no number yet, or has reached all nines, starts again at the digits of as
-- many random bytes as a number has, and is ready to count from there.
pub gen_msg_number-restarts :
    (u : MsgReqUtil) (res : Bytes) (later : List Bytes)
    → (u.t_msg_req_nu ≡ []) ⊎ (u.t_msg_req_nu ≡ u.t_max_msg_req_nu)
    → 0 < u.m_msg_req_len
    → u.urandom ≡ res ∷ later
    → length res ≡ u.m_msg_req_len
    → let (nu, u') = gen_msg_number u in
      Ready u' × (nu ≡ map digit res) × (u'.t_msg_req_nu ≡ nu) × (u'.urandom ≡ later)
unfolding gen_msg_number
gen_msg_number-restarts u res later start pos e l =
    rw (starts u.t_msg_req_nu u.t_max_msg_req_nu start, e, refresh, (==_iff _ _).1 l)
      (
        record {
          number = IsNumber-digits res;
          sized = length-map digit res ∙ l;
          nonempty = pos;
          top = refl;
        },
        refl,
        refl,
        refl,
      )
