-- ===== src/Flconcpb/Scan.antt =====
-- flconc/net/flconcpb/flconcpb_codec.cc: the scan of `decode` finds the first package.
use flconc.Base.{
  ap₂, ℕ, zero, suc, ◌+◌, ◌-◌, ◌≤◌, ◌≡◌, ◌∙◌, ◌≢◌, true, false, Bytes, [], ◌∷◌, ◌++◌, some, none,
  arith, ltb, ◌==◌, lt→ltb, length, drop, get_elem?, get_elem?-drop,
}
use flconc.Base.Int.{pos, ltb_ℤ, ◌-ℤ◌, ◌+ℤ◌}
use flconc.Flconcpb.Word.{get_int32_from_net_byte, StandsAt, StandsAt-next, get_int32-StandsAt}
use flconc.Flconcpb.Data.{FlconcPbStruct}
use flconc.Flconcpb.Encode.{pb_start, pb_end, package_size}
use flconc.Flconcpb.Decode.{Found, ends_at, sized_at, starts_at, find_pack}
use flconc.Flconcpb.Fields.{Fits, framed, from_msg, body, body-framed, length-body}

-- No byte looks like the start of a package.
abbrev pub NoStart : Bytes → Type 0
NoStart [] = Unit {0}
NoStart (c ∷ cs) = (c ≢ pb_start) × NoStart cs

starts_at-other :
    (tmp : Bytes) (w i c : ℕ) (more : Bytes)
    → drop i tmp ≡ c ∷ more
    → c ≢ pb_start
    → starts_at tmp w i ≡ some none
unfolding starts_at
starts_at-other tmp w i c more h n =
    let e : (c == pb_start) ≡ false = ground arith in rw (get_elem?-drop i tmp more c h, e)

-- The scan passes over what cannot start a package.
pub find_pack-NoStart :
    (tmp : Bytes) (w rounds k i j : ℕ) (junk more : Bytes)
    → NoStart junk
    → StandsAt tmp i junk more
    → rounds ≡ length junk + k
    → j ≡ i + length junk
    → find_pack tmp w rounds i ≡ find_pack tmp w k j
unfolding find_pack
find_pack-NoStart tmp w rounds k i j [] more n h e l =
    ap₂ (find_pack tmp w) (omega arith) (omega arith)
find_pack-NoStart tmp w zero k i j (c ∷ junk) more n h e l = absurd (omega arith)
find_pack-NoStart tmp w (suc rounds) k i j (c ∷ junk) more n h e l =
    rw (starts_at-other tmp w i c (junk ++ more) h n.0) (
      find_pack-NoStart tmp w rounds k (i + 1) j junk more n.1
        (StandsAt-next tmp i (i + 1) (c ∷ []) (junk ++ more) (omega arith) h) (omega arith)
        (omega arith))

module _ (tmp : Bytes) (w s : ℕ) (d : FlconcPbStruct) (t : Bytes) (f : Fits d)
    (h : drop s tmp ≡ framed d t) (inside : s + package_size d ≤ w) where
  abbrev pub found : Found
  found = record {
    start_index = s;
    end_index = s + package_size d - 1;
    pk_len = pos (package_size d);
  }

  end_stands : get_elem? tmp (s + package_size d - 1) ≡ some pb_end
  end_stands = get_elem?-drop (s + package_size d - 1) tmp t pb_end (
      StandsAt-next tmp s (s + package_size d - 1) (body d) (pb_end ∷ t)
        (omega (arith, length-body d)) (h ∙ body-framed d t))

  sized_at-framed : sized_at tmp w s ≡ some (some found)
  unfolding sized_at ends_at
  sized_at-framed =
      let size : get_int32_from_net_byte tmp (s + 1) ≡ some (pos (package_size d)) =
        get_int32-StandsAt tmp (s + 1) (pos (package_size d)) (from_msg d t) f.size_range
          (StandsAt-next tmp s (s + 1) (pb_start ∷ []) _ (omega arith) h) in
      let last : pos s +ℤ pos (package_size d) -ℤ pos 1 ≡ pos (s + package_size d - 1) =
        ground arith in
      let less : ltb_ℤ (pos (s + package_size d - 1)) (pos w) ≡ true = lt→ltb _ _ (omega arith) in
      rw (size, last, less, end_stands)

  pub find_pack-framed : (k : ℕ) → find_pack tmp w (suc k) s ≡ some (some found)
  unfolding find_pack starts_at
  find_pack-framed k =
      let more : ltb (s + 1) w ≡ true = lt→ltb _ _ (omega arith) in
      rw (get_elem?-drop s tmp _ pb_start h, more, sized_at-framed)
