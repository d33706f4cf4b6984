-- ===== src/Tcp/TimeWheel.antt =====
-- flconc/net/tcp/tcp_connection_time_wheel.cc and abstract_slot.h. A slot is a number; the wheel holds
-- the only strong pointers to it, as when no `freshTcpConnection` task is in flight. The destructor of
-- a slot, which shuts its connection down, runs when the last pointer goes. `none` is a `pop` or a
-- `back` of an empty queue.
use mathlib.Core.Option.{some-injective}
use flconc.Base.{
  ℕ, zero, suc, ◌≤◌, ◌≡◌, refl, ap, sym, ◌∙◌, Bool, true, false, ◌||◌, List, [], ◌∷◌, ◌++◌, Option,
  none, some, ◌==◌, if◌then◌else◌, ◌>>=◌, length, replicate, drop, arith, Returns, length-append,
  drop-append_le, append_assoc, ==_refl, append-nil, >>=-eq-some,
}

abbrev pub Wheel : Type 0
Wheel = List (List ℕ)

abbrev pub empty_bucket : List ℕ
empty_bucket = []

unfoldable pub new_wheel : ℕ → Wheel
new_wheel bucket_count = replicate bucket_count empty_bucket

abbrev pub contains : ℕ → List ℕ → Bool
contains s [] = false
contains s (x ∷ xs) = x == s || contains s xs

abbrev pub held : ℕ → Wheel → Bool
held s [] = false
held s (b ∷ bs) = contains s b || held s bs

-- The slots whose last pointer goes with a bucket, when `rest` stays.
unfoldable pub released : List ℕ → Wheel → List ℕ
released [] rest = []
released (s ∷ ss) rest =
    let more = released ss rest in if contains s ss || held s rest then more else s ∷ more

-- The wheel after one round, and the slots destroyed.
unfoldable pub loop_func : Wheel → Option (Wheel × List ℕ)
loop_func [] = none
loop_func (b ∷ rest) = some (rest ++ empty_bucket ∷ [], released b (rest ++ empty_bucket ∷ []))

unfoldable pub fresh : ℕ → Wheel → Option Wheel
fresh s [] = none
fresh s (b ∷ []) = some ((b ++ s ∷ []) ∷ [])
fresh s (b ∷ c ∷ rest) = do rest' ← fresh s (c ∷ rest); some (b ∷ rest')

-- So many rounds of the timer with nothing refreshed, and all the slots destroyed.
unfoldable pub rounds : ℕ → Wheel → Option (Wheel × List ℕ)
rounds zero w = some (w, [])
rounds (suc k) w = do r ← loop_func w; later ← rounds k r.0; some (later.0, r.1 ++ later.1)

or_true : (b : Bool) → (b || true) ≡ true
or_true true = refl
or_true false = refl

pub contains-append :
    (s : ℕ) (xs ys : List ℕ) → contains s (xs ++ ys) ≡ (contains s xs || contains s ys)
contains-append s [] ys = refl
contains-append s (x ∷ xs) ys = ground (arith, contains-append s xs ys)

pub released-held :
    (s : ℕ) (b : List ℕ) (rest : Wheel) → held s rest ≡ true → contains s (released b rest) ≡ false
unfolding released
released-held s [] rest h = refl
released-held s (x ∷ b) rest h = ground (arith, released-held s b rest h)

released-last :
    (s : ℕ) (b : List ℕ) (rest : Wheel)
    → contains s b ≡ true
    → held s rest ≡ false
    → contains s (released b rest) ≡ true
unfolding released
released-last s [] rest h l = cc
released-last s (x ∷ b) rest h l = ground (arith, released-last s b rest)

-- Rounds up to the number of buckets take the oldest buckets away and put empty ones at the end.
rounds-drop :
    (k : ℕ) (w : Wheel)
    → k ≤ length w
    → Returns (rounds k w) (λ r. r.0 ≡ drop k w ++ replicate k empty_bucket)
unfolding rounds loop_func
rounds-drop zero w h = ((w, []), refl, sym (append-nil w))
rounds-drop (suc k) [] h = absurd (omega arith)
rounds-drop (suc k) (b ∷ w) h =
    let (r, e, p) =
      rounds-drop k (w ++ empty_bucket ∷ []) (omega (arith, length-append w (empty_bucket ∷ []))) in
    (
      (r.0, released b (w ++ empty_bucket ∷ []) ++ r.1),
      rw e,
      p
          ∙ ap (λ t. t ++ replicate k empty_bucket)
              (drop-append_le k w (empty_bucket ∷ []) (omega arith))
          ∙ append_assoc (drop k w) (empty_bucket ∷ []) (replicate k empty_bucket),
    )

pub held-append : (s : ℕ) (w v : Wheel) → held s (w ++ v) ≡ (held s w || held s v)
held-append s [] v = refl
held-append s (b ∷ w) v = ground (arith, held-append s w v)

pub held-drop : (k s : ℕ) (w : Wheel) → held s (drop k w) ≡ true → held s w ≡ true
held-drop zero s w h = h
held-drop (suc k) s [] h = h
held-drop (suc k) s (b ∷ w) h = ground (arith, held-drop k s w h)

pub held-drop_append :
    (k s : ℕ) (w v : Wheel) → held s (drop k w) ≡ true → held s (drop k (w ++ v)) ≡ true
held-drop_append zero s w v h = rw (held-append s w v, h)
held-drop_append (suc k) s [] v h = cc
held-drop_append (suc k) s (b ∷ w) v h = held-drop_append k s w v h

-- A slot that stands in a bucket behind the first `k` outlives `k` rounds.
rounds-held :
    (k s : ℕ) (w : Wheel) (r : Wheel × List ℕ)
    → held s (drop k w) ≡ true
    → rounds k w ≡ some r
    → contains s r.1 ≡ false
unfolding rounds loop_func
rounds-held zero s w r h e = ground arith
rounds-held (suc k) s [] r h e = cc
rounds-held (suc k) s (b ∷ w) r h e =
    let v : Wheel = w ++ empty_bucket ∷ [] in
    let (later, f, g) = >>=-eq-some (rounds k v) (λ x. some (x.0, released b v ++ x.1)) e in
    let up : held s (drop k v) ≡ true = held-drop_append k s w (empty_bucket ∷ []) h in
    let first : contains s (released b v) ≡ false = released-held s b v (held-drop k s v up) in
    let rest : contains s later.1 ≡ false = rounds-held k s v later up f in
    let same : released b v ++ later.1 ≡ r.1 = ap (λ x. x.1) (some-injective _ _ g) in
    rw (← same, contains-append s (released b v) later.1, first, rest)

-- `fresh` puts the slot into the last bucket, and needs a bucket.
pub fresh-last :
    (s : ℕ) (b : List ℕ) (w : Wheel)
    → Returns (fresh s (b ∷ w)) (λ w'.
      (length w' ≡ suc (length w))
      × ((c : List ℕ) × (drop (length w) w' ≡ c ∷ []) × (contains s c ≡ true)))
unfolding fresh
fresh-last s b [] = (
  (b ++ s ∷ []) ∷ [],
  refl,
  (
    refl,
    (b ++ s ∷ [], refl, rw (contains-append s b (s ∷ []), ==_refl s) (or_true (contains s b))),
  ),
)
fresh-last s b (c ∷ w) = let (w', e, d) = fresh-last s c w in (b ∷ w', rw e, (ap suc d.0, d.1))

held-replicate : (k s : ℕ) → held s (replicate k empty_bucket) ≡ false
held-replicate zero s = refl
held-replicate (suc k) s = held-replicate k s

last_round :
    (s k : ℕ) (c : List ℕ) (v : Wheel)
    → contains s c ≡ true
    → v ≡ c ∷ replicate k empty_bucket
    → Returns (loop_func v) (λ r. contains s r.1 ≡ true)
unfolding loop_func
last_round s k c v h e =
    let rest : Wheel = replicate k empty_bucket ++ empty_bucket ∷ [] in
    let gone : held s rest ≡ false =
      rw (held-append s (replicate k empty_bucket) (empty_bucket ∷ []), held-replicate k s) in
    ((rest, released c rest), rw e, released-last s c rest h gone)

-- A connection refreshed on a wheel of `length w + 1` buckets and then left alone outlives
-- `length w` rounds of the timer, and the round after those shuts it down.
pub fresh-rounds :
    (s : ℕ) (b : List ℕ) (w : Wheel)
    → Returns (fresh s (b ∷ w)) (λ w'.
      Returns (rounds (length w) w') (λ r.
        (contains s r.1 ≡ false) × Returns (loop_func r.0) (λ last. contains s last.1 ≡ true)))
fresh-rounds s b w =
    let (w', e, d) = fresh-last s b w in
    let (c, stands, last) = d.1 in
    let (r, f, p) = rounds-drop (length w) w' (omega (arith, d.0)) in
    let there : held s (drop (length w) w') ≡ true = rw stands (ground (arith, last)) in
    let left : r.0 ≡ c ∷ replicate (length w) empty_bucket =
      p ∙ ap (λ t. t ++ replicate (length w) empty_bucket) stands in
    (
      w',
      e,
      (r, f, (rounds-held (length w) s w' r there f, last_round s (length w) c r.0 last left)),
    )
