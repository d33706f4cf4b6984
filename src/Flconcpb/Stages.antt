-- ===== src/Flconcpb/Stages.antt =====
-- flconc/net/flconcpb/flconcpb_codec.cc: what each stage of `decode` does on a part of a package
-- that is well formed.
use flconc.Base.{
  none, zero, suc, ◌≤◌, ◌^◌, take, drop, length-take, length-drop, lt→ltb, ℕ, ◌+◌, ◌<◌, ◌≡◌, refl,
  true, false, Bytes, [], ◌∷◌, ◌++◌, some, arith, ltb, ◌==◌, lt→leb, le→ltb, length, length-append,
}
use flconc.Base.Int.{ℤ, pos, ltb_ℤ}
use flconc.Flconcpb.Word.{
  net32, IsInt32, StandsAt, StandsAt-next, copy-StandsAt, get_int32-StandsAt,
}
use flconc.Tcp.Buffer.Memory.{copy-take}
use flconc.Flconcpb.Data.{FlconcPbStruct}
use flconc.Flconcpb.Decode.{
  up_to_nul, copy_string, data_len, read_pb_data, read_err_info, read_service_name, read_msg_req_of,
  read_msg_req,
}

-- No byte of a C string is its terminator.
abbrev pub NoNul : Bytes → Type 0
NoNul [] = Unit {0}
NoNul (c ∷ cs) = (0 < c) × NoNul cs

up_to_nul-NoNul : (xs : Bytes) → NoNul xs → up_to_nul xs ≡ xs
up_to_nul-NoNul [] h = refl
up_to_nul-NoNul (c ∷ cs) h = ground (arith, up_to_nul-NoNul cs h.1)

pub copy_string-StandsAt :
    (size : ℕ) (tmp : Bytes) (i : ℕ) (ys more : Bytes)
    → 0 < length (ys ++ more)
    → StandsAt tmp i ys more
    → NoNul ys
    → length ys < size
    → copy_string size tmp i (pos (length ys)) ≡ some ys
unfolding copy_string
copy_string-StandsAt size tmp i ys more p h n l =
    let small : ltb size (length ys) ≡ false = le→ltb size (length ys) (omega arith) in
    let other : (length ys == size) ≡ false = ground arith in
    rw (copy-StandsAt tmp i ys more p h, up_to_nul-NoNul ys n, small, other)

pub read_pb_data-StandsAt :
    (tmp : Bytes) (e i : ℕ) (d : FlconcPbStruct) (pb more : Bytes)
    → 0 < length (pb ++ more)
    → StandsAt tmp i pb more
    → i < e
    → data_len d ≡ pos (length pb)
    → read_pb_data tmp e i d ≡ some (record d { pb_data = pb; decode_succ = true })
unfolding read_pb_data
read_pb_data-StandsAt tmp e i d pb more p h l n =
    rw (lt→leb e i l, n, copy-StandsAt tmp i pb more p h)

pub read_err_info-StandsAt :
    (tmp : Bytes) (e i : ℕ) (d : FlconcPbStruct) (code : ℤ) (info more : Bytes)
    → StandsAt tmp i (net32 code) (net32 (pos (length info)) ++ (info ++ more))
    → 0 < length more
    → IsInt32 code
    → NoNul info
    → length info < 512
    → i + 4 < e
    → read_err_info tmp e i d
      ≡ read_pb_data tmp e
          (i + 8 + length info)
          (record d { err_code = code; err_info_len = pos (length info); err_info = info })
unfolding read_err_info
read_err_info-StandsAt tmp e i d code info more h p c n l m =
    let h₁ = StandsAt-next tmp i (i + 4) (net32 code) _ (omega arith) h in
    let h₂ = StandsAt-next tmp (i + 4) (i + 8) (net32 (pos (length info))) _ (omega arith) h₁ in
    rw (
      get_int32-StandsAt tmp i code _ c h,
      lt→leb e (i + 4) m,
      get_int32-StandsAt tmp (i + 4) (pos (length info)) _ (omega arith) h₁,
      copy_string-StandsAt 512 tmp (i + 8) info more (omega (arith, length-append info more)) h₂ n
          l,
    )

pub read_service_name-StandsAt :
    (tmp : Bytes) (e i : ℕ) (d : FlconcPbStruct) (name more : Bytes)
    → StandsAt tmp i (net32 (pos (length name))) (name ++ more)
    → 0 < length more
    → NoNul name
    → length name < 512
    → i + 4 < e
    → ltb_ℤ d.pk_len (pos (length name)) ≡ false
    → read_service_name tmp e i d
      ≡ read_err_info tmp e
          (i + 4 + length name)
          (record d { service_name_len = pos (length name); service_full_name = name })
unfolding read_service_name
read_service_name-StandsAt tmp e i d name more h p n l m s =
    let h₁ = StandsAt-next tmp i (i + 4) (net32 (pos (length name))) _ (omega arith) h in
    rw (
      lt→leb e i (omega arith),
      lt→leb e (i + 4) m,
      get_int32-StandsAt tmp i (pos (length name)) _ (omega arith) h,
      s,
      copy_string-StandsAt 512 tmp (i + 4) name more (omega (arith, length-append name more)) h₁ n
          l,
    )

pub read_msg_req-StandsAt :
    (tmp : Bytes) (e i : ℕ) (d : FlconcPbStruct) (msg more : Bytes)
    → StandsAt tmp i (net32 (pos (length msg))) (msg ++ more)
    → 0 < length more
    → NoNul msg
    → 0 < length msg
    → length msg < 50
    → i < e
    → read_msg_req tmp e i d
      ≡ read_service_name tmp e
          (i + 4 + length msg)
          (record d { msg_req_len = pos (length msg); msg_req = msg })
unfolding read_msg_req read_msg_req_of
read_msg_req-StandsAt tmp e i d [] more h p n z l m = absurd (omega arith)
read_msg_req-StandsAt tmp e i d (c ∷ msg) more h p n z l m =
    let h₁ = StandsAt-next tmp i (i + 4) (net32 (pos (length (c ∷ msg)))) _ (omega arith) h in
    rw (
      lt→leb e i m,
      get_int32-StandsAt tmp i (pos (length (c ∷ msg))) _ (omega arith) h,
      copy_string-StandsAt 50 tmp (i + 4) (c ∷ msg) more (omega arith) h₁ n l,
    )

copy_string-long :
    (size : ℕ) (tmp : Bytes) (i n : ℕ)
    → i + n ≤ length tmp
    → size < n
    → copy_string size tmp i (pos n) ≡ none
unfolding copy_string
copy_string-long size tmp i n h l =
    let read : length (take n (drop i tmp)) ≡ n =
      length-take n (drop i tmp) (omega (arith, length-drop i tmp)) in
    let long : ltb size (length (take n (drop i tmp))) ≡ true =
      lt→ltb size (length (take n (drop i tmp))) (omega (arith, read)) in
    rw (copy-take tmp i n h, long)

-- A package whose message number is longer than the array `msg_req[50]` makes `decode` write past it:
-- its length is taken from the package and not checked.
pub read_msg_req_overrun :
    (tmp : Bytes) (e i n : ℕ) (d : FlconcPbStruct) (more : Bytes)
    → StandsAt tmp i (net32 (pos n)) more
    → i < e
    → 50 < n
    → n < 2 ^ 31
    → i + 4 + n ≤ length tmp
    → read_msg_req tmp e i d ≡ none
unfolding read_msg_req read_msg_req_of
read_msg_req_overrun tmp e i zero d more h m l s r = absurd (omega arith)
read_msg_req_overrun tmp e i (suc n) d more h m l s r = rw (
  lt→leb e i m,
  get_int32-StandsAt tmp i (pos (suc n)) more s h,
  copy_string-long 50 tmp (i + 4) (suc n) r l,
)
