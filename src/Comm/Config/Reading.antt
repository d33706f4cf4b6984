-- ===== src/Comm/Config/Reading.antt =====
-- flconc/comm/config.cc: reading that may end the program, or fault.
use flconc.Base.{◌≡◌, refl, Bytes, Option, none, some}

-- `faults` is undefined behaviour, such as a text built from a null pointer; `exits` is a message about this
-- node and `exit(0)`.
pub data Read {ℓ} (T : Type ℓ) : Type ℓ where
  faults : Read T
  exits : Bytes → Read T
  has : T → Read T

infixl 5 ◌>>=◌
abbrev pub ◌>>=◌ {κ ℓ} : {T : Type κ} {S : Type ℓ} → Read T → (T → Read S) → Read S
faults >>= next = faults
exits name >>= next = exits name
has t >>= next = next t

-- What must be there, or the program ends.
abbrev pub or_exits {ℓ} : {T : Type ℓ} → Bytes → Option T → Read T
or_exits name none = exits name
or_exits name (some t) = has t

-- What is used without a test.
abbrev pub or_faults {ℓ} : {T : Type ℓ} → Option T → Read T
or_faults none = faults
or_faults (some t) = has t

pub or_exits-eq-has {ℓ} :
    {T : Type ℓ} (name : Bytes) (o : Option T) {t : T} → or_exits name o ≡ has t → o ≡ some t
or_exits-eq-has name none h = cc
or_exits-eq-has name (some s) h = cc

pub or_faults-eq-has {ℓ} : {T : Type ℓ} (o : Option T) {t : T} → or_faults o ≡ has t → o ≡ some t
or_faults-eq-has none h = cc
or_faults-eq-has (some s) h = cc

pub has-injective {ℓ} : {T : Type ℓ} {s t : T} → has s ≡ has t → s ≡ t
has-injective h = cc

-- A reading that succeeds has succeeded at each of its steps.
pub >>=-eq-has {κ ℓ} :
    {T : Type κ} {S : Type ℓ} {s : S} (first : Read T) (next : T → Read S)
    → (first >>= next) ≡ has s
    → (t : T) × (first ≡ has t) × (next t ≡ has s)
>>=-eq-has faults next h = cc
>>=-eq-has (exits name) next h = cc
>>=-eq-has (has t) next h = (t, refl, h)
