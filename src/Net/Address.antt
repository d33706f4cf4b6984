-- ===== src/Net/Address.antt =====
-- flconc/net/base/net_address.cc: `IPAddress` as text. `inet_addr` is a parameter, with `none` for
-- INADDR_NONE. An address made from a text without a colon has no port set, which is `none`.
use native.Mathlib.Nat.{mod-eq_of_lt}
use flconc.Base.{
  ltb→lt, ℕ, ◌+◌, ◌%◌, ◌^◌, ◌-◌, ◌≤◌, ◌<◌, ◌≡◌, sym, ap, Bool, true, false, Bytes, [], ◌∷◌, ◌++◌,
  Option, none, some, if◌then◌else◌, ◌||◌, take, drop, Bool-cases, inl, inr, ◌⊎◌, arith, ltb,
  Option-cases,
}
use flconc.Base.Int.{ℤ, pos, negsuc, ltb_ℤ}
use flconc.Comm.StringUtil.{find_first_of}
use flconc.Http.Message.{atoi, decimal}

pub record IpAddress : Type 0 where
  pub m_ip : Bytes
  pub m_port : ℕ

abbrev pub colon : Bytes
colon = b':' ∷ []

-- The value of an `int` as a `uint16_t`.
abbrev pub uint16 : ℤ → ℕ
uint16 (pos n) = n % 2 ^ 16
uint16 (negsuc n) = 2 ^ 16 - 1 - n % 2 ^ 16

abbrev pub is_set : Option ℕ → Bool
is_set none = false
is_set (some a) = true

module _ (inet_addr : Bytes → Option ℕ) where
  unfoldable pub valid_parts : Bytes → ℤ → Bool
  valid_parts ip port =
      if ltb_ℤ port (pos 0) || ltb_ℤ (pos 65536) port then false else is_set (inet_addr ip)

  unfoldable pub check_valid_at : Bytes → Option ℕ → Bool
  check_valid_at addr none = false
  check_valid_at addr (some i) = valid_parts (take i addr) (atoi (drop (i + 1) addr))

  unfoldable pub check_valid_ip_addr : Bytes → Bool
  check_valid_ip_addr addr = check_valid_at addr (find_first_of colon addr)

-- `IPAddress(const std::string &)`
unfoldable pub address_at : Bytes → Option ℕ → Option IpAddress
address_at addr none = none
address_at addr (some i) =
    some (record { m_ip = take i addr; m_port = uint16 (atoi (drop (i + 1) addr)) })

unfoldable pub new_ip_address : Bytes → Option IpAddress
new_ip_address addr = address_at addr (find_first_of colon addr)

unfoldable pub to_string : IpAddress → Bytes
to_string a = a.m_ip ++ (b':' ∷ decimal a.m_port)

-- The port of a text that was checked.
abbrev pub TakenPort : Bytes → ℕ → IpAddress → Type 0
TakenPort addr i a =
    ((atoi (drop (i + 1) addr) ≡ pos a.m_port) ⊎ (a.m_port ≡ 0)) × (a.m_port < 2 ^ 16)

port_kept :
    (n : ℤ)
    → (ltb_ℤ n (pos 0) || ltb_ℤ (pos 65536) n) ≡ false
    → ((n ≡ pos (uint16 n)) ⊎ (uint16 n ≡ 0)) × (uint16 n < 2 ^ 16)
port_kept (negsuc n) h = absurd (ground (arith, h))
port_kept (pos n) h =
    let most : n ≤ 65536 = ground (arith, h) in
    elim (Bool-cases (ltb n 65536)) [
      | inl l ↦
          let same : n % 65536 ≡ n = mod-eq_of_lt (ltb→lt n 65536 l) in
          (inl (ap pos (sym same)), omega (arith, same, ltb→lt n 65536 l))
      | inr l ↦
          let is : n ≡ 65536 = ground (arith, most, l) in
          let zero_ : n % 65536 ≡ 0 = ap (λ k. k % 65536) is in (inr zero_, omega (arith, zero_))
    ]

-- Of a text that `CheckValidIPAddr` accepts, the address made has the port of the text, or port 0: the
-- check lets 65536 pass, which does not fit the 16 bits of a port.
pub check_valid_ip_addr-port :
    (inet_addr : Bytes → Option ℕ) (addr : Bytes)
    → check_valid_ip_addr inet_addr addr ≡ true
    → (i : ℕ) × (a : IpAddress) × (find_first_of colon addr ≡ some i)
      × (new_ip_address addr ≡ some a)
      × TakenPort addr i a
unfolding check_valid_ip_addr check_valid_at valid_parts new_ip_address address_at
check_valid_ip_addr-port inet_addr addr h = elim (Option-cases (find_first_of colon addr)) [
  | inl n ↦ absurd (cc (rw n at h))
  | inr (i, n) ↦
      let port : ℤ = atoi (drop (i + 1) addr) in
      elim (Bool-cases (ltb_ℤ port (pos 0) || ltb_ℤ (pos 65536) port)) [
        | inl b ↦ absurd (cc (rw (n, b) at h))
        | inr b ↦
            (i, record { m_ip = take i addr; m_port = uint16 port }, n, (simp n), port_kept port b)
      ]
]
