-- ===== src/Flconcpb/Progress.antt =====
-- flconc/net/flconcpb/flconcpb_codec.cc: a `decode` that succeeds takes bytes off the buffer.
use flconc.Base.{
  ℕ, zero, suc, ◌+◌, ◌-◌, ◌≤◌, ◌<◌, ◌^◌, ◌≡◌, refl, sym, ap, ◌∙◌, true, false, Bytes, Option, none,
  some, ◌&&◌, ◌==◌, arith, ltb, leb, length, drop, get_elem?, Bool-cases, Option-cases, inl, inr,
  >>=-eq-some, subst,
}
use mathlib.Core.Option.{some-injective}
use flconc.Base.Int.{ℤ, pos, negsuc, sub_ℕ, ltb_ℤ, ◌+ℤ◌, ◌-ℤ◌}
use flconc.Tcp.Buffer.{TcpBuffer, recycle_read}
use flconc.Tcp.Buffer.Refine.{Holds, Holds-length}
use flconc.Tcp.Buffer.Reads.{recycle_read-Holds}
use flconc.Flconcpb.Word.{get_int32_from_net_byte}
use flconc.Flconcpb.Encode.{pb_start, pb_end}
use flconc.Flconcpb.Data.{FlconcPbStruct}
use flconc.Flconcpb.Decode.{
  Found, ends_at, sized_at, starts_at, find_pack, read_msg_req, decode_found, decode,
}

-- The package starts at `i` or later, and ends before `w`.
abbrev Inside : ℕ → ℕ → Found → Type 0
Inside i w f = (i ≤ f.start_index) × (f.end_index < w)

ends_at-Inside :
    (tmp : Bytes) (i w : ℕ) (len j : ℤ) (f : Found)
    → ltb_ℤ j (pos w) ≡ true
    → ends_at tmp i len j ≡ some (some f)
    → Inside i w f
unfolding ends_at
ends_at-Inside tmp i w len (negsuc n) f l h = cc
ends_at-Inside tmp i w len (pos j) f l h =
    let (c, e, g) = >>=-eq-some (get_elem? tmp j) _ h in
    elim (Bool-cases (c == pb_end)) [
      | inl t ↦
          let k : some (record { start_index = i; end_index = j; pk_len = len }) ≡ some f =
            some-injective _ _ (rw t at g) in
          let q : record { start_index = i; end_index = j; pk_len = len } ≡ f =
            some-injective _ _ k in
          subst (Inside i w) q (omega arith, ground arith)
      | inr t ↦ cc (some-injective _ _ (rw t at g))
    ]

sized_at-Inside :
    (tmp : Bytes) (w i : ℕ) (f : Found) → sized_at tmp w i ≡ some (some f) → Inside i w f
unfolding sized_at
sized_at-Inside tmp w i f h =
    let (len, e, g) = >>=-eq-some (get_int32_from_net_byte tmp (i + 1)) _ h in
    elim (Bool-cases (ltb_ℤ (pos i +ℤ len -ℤ pos 1) (pos w))) [
      | inl t ↦ ends_at-Inside tmp i w len (pos i +ℤ len -ℤ pos 1) f t (rw t at g)
      | inr t ↦ elim (Bool-cases (ltb_ℤ (pos i +ℤ len -ℤ pos 1) (pos (2 ^ 31)))) [
        | inl u ↦ cc (some-injective _ _ (rw (t, u) at g))
        | inr u ↦ cc (rw (t, u) at g)
      ]
    ]

starts_at-Inside :
    (tmp : Bytes) (w i : ℕ) (f : Found) → starts_at tmp w i ≡ some (some f) → Inside i w f
unfolding starts_at
starts_at-Inside tmp w i f h =
    let (c, e, g) = >>=-eq-some (get_elem? tmp i) _ h in
    elim (Bool-cases (c == pb_start && ltb (i + 1) w)) [
      | inl t ↦ sized_at-Inside tmp w i f (rw t at g)
      | inr t ↦ cc (some-injective _ _ (rw t at g))
    ]

-- The scan finds a package between where it starts and the write index.
find_pack-Inside :
    (tmp : Bytes) (w rounds i : ℕ) (f : Found)
    → find_pack tmp w rounds i ≡ some (some f)
    → Inside i w f
unfolding find_pack
find_pack-Inside tmp w zero i f h = cc (some-injective _ _ h)
find_pack-Inside tmp w (suc rounds) i f h = elim (Option-cases (starts_at tmp w i)) [
  | inl n ↦ cc (rw n at h)
  | inr (none, n) ↦
      let (p, q) = find_pack-Inside tmp w rounds (i + 1) f (rw n at h) in (omega arith, q)
  | inr (some g, n) ↦
      let q : g ≡ f = some-injective _ _ (some-injective _ _ (rw n at h)) in
      subst (Inside i w) q (starts_at-Inside tmp w i g n)
]

-- The fields are read only from a package that goes on behind its length.
read_msg_req-lt :
    (tmp : Bytes) (end_index i : ℕ) (d d' : FlconcPbStruct)
    → read_msg_req tmp end_index i d ≡ some d'
    → d.decode_succ ≡ false
    → d'.decode_succ ≡ true
    → i < end_index
unfolding read_msg_req
read_msg_req-lt tmp e i d d' h n s = elim (Bool-cases (leb e i)) [
  | inl l ↦ absurd (cc (some-injective _ _ (rw l at h)))
  | inr l ↦ ground (arith, l)
]

-- The bytes are gone from the front of the queue, one at least.
abbrev pub Shrinks : Bytes → TcpBuffer → Type 0
Shrinks xs buf = (n : ℕ) × (0 < n) × (n ≤ length xs) × Holds buf (drop n xs)

recycle_read-Shrinks :
    {b b' : TcpBuffer} {xs : Bytes} (n : ℕ)
    → Holds b xs
    → 0 < n
    → n ≤ length xs
    → recycle_read b (pos n) ≡ some b'
    → Shrinks xs b'
recycle_read-Shrinks {b} {b'} {xs} n h p l e =
    let (b'', g, q) = recycle_read-Holds n h l in
    (n, p, l, subst (λ b. Holds b (drop n xs)) (some-injective _ _ (sym g ∙ e)) q)

decode_found-Shrinks :
    {buf : TcpBuffer} {xs : Bytes} (d : FlconcPbStruct) (found : Option Found)
    (r : TcpBuffer × FlconcPbStruct)
    → Holds buf xs
    → d.decode_succ ≡ false
    → ((f : Found) → found ≡ some f → Inside buf.m_read_index buf.m_write_index f)
    → decode_found buf d found ≡ some r
    → r.1.decode_succ ≡ true
    → Shrinks xs r.0
unfolding decode_found
decode_found-Shrinks d none r h n i e s = absurd (cc (some-injective _ _ e))
decode_found-Shrinks {buf} {xs} d (some f) r h n i e s =
    let (b', p, g) = >>=-eq-some (recycle_read buf (sub_ℕ (f.end_index + 1) f.start_index)) _ e in
    let (d', q, k) =
      >>=-eq-some
        (read_msg_req buf.m_buffer f.end_index (f.start_index + 5)
          (record d { pk_len = f.pk_len; decode_succ = false }))
        _ g in
    let same : (b', d') ≡ r = some-injective _ _ k in
    let done : d'.decode_succ ≡ true = ap (λ t. t.1.decode_succ) same ∙ s in
    let long : f.start_index + 5 < f.end_index =
      read_msg_req-lt buf.m_buffer f.end_index (f.start_index + 5)
        (record d { pk_len = f.pk_len; decode_succ = false }) d' q refl done in
    let (low, high) = i f refl in
    let count : sub_ℕ (f.end_index + 1) f.start_index ≡ pos (f.end_index + 1 - f.start_index) =
      ground (arith, long) in
    subst (λ t. Shrinks xs t.0) same
      (recycle_read-Shrinks (f.end_index + 1 - f.start_index) h (omega (arith, long))
        (omega (arith, low, high, Holds-length h)) (rw count at p))

-- When `decode` succeeds on a struct that does not say so yet, at least one of the unread bytes is gone
-- from the buffer, and the others are still there: the caller's loop comes to an end.
pub decode-Shrinks :
    {buf : TcpBuffer} {xs : Bytes} (d : FlconcPbStruct) (r : TcpBuffer × FlconcPbStruct)
    → Holds buf xs
    → d.decode_succ ≡ false
    → decode buf d ≡ some r
    → r.1.decode_succ ≡ true
    → Shrinks xs r.0
unfolding decode
decode-Shrinks {buf} {xs} d r h n e s =
    let rounds : ℕ = buf.m_write_index - buf.m_read_index in
    let (found, p, g) =
      >>=-eq-some (find_pack buf.m_buffer buf.m_write_index rounds buf.m_read_index) _ e in
    decode_found-Shrinks d found r h n
      (λ f q.
        find_pack-Inside buf.m_buffer buf.m_write_index rounds buf.m_read_index f (p ∙ ap some q))
      g s
