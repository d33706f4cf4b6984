-- ===== src/Flconcpb/Word.antt =====
-- flconc/net/base/byte.h, and `htonl` with `memcpy` as the codec uses them: an int32_t as four bytes,
-- the highest first.
use flconc.Base.{
  ℕ, ◌+◌, ◌-◌, ◌*◌, ◌/◌, ◌%◌, ◌^◌, ◌≤◌, ◌<◌, ◌≡◌, sym, ap, ◌∙◌, Bytes, [], ◌∷◌, ◌++◌, Option, some,
  arith, ◌>>=◌, length, take, drop, take-front, drop-append, drop-drop, length-append, length-drop,
}
use flconc.Base.Int.{ℤ, pos, negsuc, signed32}
use flconc.Tcp.Buffer.{copy}
use flconc.Tcp.Buffer.Memory.{copy-take}

-- The bit pattern of an int32_t.
abbrev pub pattern32 : ℤ → ℕ
pattern32 (pos n) = n % 2 ^ 32
pattern32 (negsuc n) = 2 ^ 32 - 1 - n % 2 ^ 32

-- A size_t stored in an int32_t.
abbrev pub int32 : ℕ → ℤ
int32 n = signed32 (n % 2 ^ 32)

abbrev pub net32 : ℤ → Bytes
net32 z =
    pattern32 z / 2 ^ 24 % 256
    ∷ pattern32 z / 2 ^ 16 % 256
    ∷ pattern32 z / 2 ^ 8 % 256
    ∷ pattern32 z % 256
    ∷ []

abbrev pub from_net : Bytes → ℤ
from_net (a ∷ b ∷ c ∷ d ∷ []) = signed32 (a * 2 ^ 24 + b * 2 ^ 16 + c * 2 ^ 8 + d)
from_net _ = pos 0

-- `getInt32FromNetByte(&tmp[i])`; reading past the vector is a fault.
unfoldable pub get_int32_from_net_byte : Bytes → ℕ → Option ℤ
get_int32_from_net_byte tmp i = do read ← copy tmp i (pos 4); some (from_net read)

-- The values of an int32_t.
abbrev pub IsInt32 : ℤ → Type 0
IsInt32 (pos n) = n < 2 ^ 31
IsInt32 (negsuc n) = n < 2 ^ 31

pub from_net-net32 : (z : ℤ) → IsInt32 z → from_net (net32 z) ≡ z
from_net-net32 (pos n) h = ground arith
from_net-net32 (negsuc n) h = ground arith

-- `ys` stands at index `i` of the vector, and `more` behind it.
abbrev pub StandsAt : Bytes → ℕ → Bytes → Bytes → Type 0
StandsAt tmp i ys more = drop i tmp ≡ ys ++ more

pub StandsAt-inside :
    (tmp : Bytes) (i : ℕ) (ys more : Bytes)
    → 0 < length (ys ++ more)
    → StandsAt tmp i ys more
    → i + length ys ≤ length tmp
StandsAt-inside tmp i ys more p h =
    omega (arith, ap length h, length-drop i tmp, length-append ys more)

pub StandsAt-next :
    (tmp : Bytes) (i j : ℕ) (ys more : Bytes)
    → j ≡ i + length ys
    → StandsAt tmp i ys more
    → drop j tmp ≡ more
StandsAt-next tmp i j ys more e h =
    sym (drop-drop i (length ys) j tmp e)
    ∙ ap (drop (length ys)) h
    ∙ drop-append (length ys) 0 ys more (omega arith)

pub copy-StandsAt :
    (tmp : Bytes) (i : ℕ) (ys more : Bytes)
    → 0 < length (ys ++ more)
    → StandsAt tmp i ys more
    → copy tmp i (pos (length ys)) ≡ some ys
copy-StandsAt tmp i ys more p h =
    copy-take tmp i (length ys) (StandsAt-inside tmp i ys more p h)
    ∙ ap (λ t. some (take (length ys) t)) h
    ∙ ap some (take-front ys more)

pub get_int32-StandsAt :
    (tmp : Bytes) (i : ℕ) (z : ℤ) (more : Bytes)
    → IsInt32 z
    → StandsAt tmp i (net32 z) more
    → get_int32_from_net_byte tmp i ≡ some z
unfolding get_int32_from_net_byte
get_int32-StandsAt tmp i z more r h =
    rw (copy-StandsAt tmp i (net32 z) more (omega arith) h, from_net-net32 z r)
