-- ===== src/Flconcpb/Fields.antt =====
-- flconc/net/flconcpb/flconcpb_codec.cc: the stages of `decode` on a package of `encode`, end to end.
use flconc.Base.{
  ℕ, ◌+◌, ◌-◌, ◌^◌, ◌<◌, ◌≡◌, refl, ◌∙◌, subst, true, false, Bytes, ◌∷◌, ◌++◌, some, arith, le→ltb,
  length, drop, length-append, append_assoc,
}
use flconc.Base.Int.{ℤ, pos, ◌-ℤ◌}
use flconc.Flconcpb.Word.{net32, int32, IsInt32, StandsAt, StandsAt-next}
use flconc.Flconcpb.Data.{FlconcPbStruct}
use flconc.Flconcpb.Encode.{pb_start, pb_end, package_size, pack}
use flconc.Flconcpb.Decode.{read_msg_req}
use flconc.Flconcpb.Stages.{
  NoNul, read_pb_data-StandsAt, read_err_info-StandsAt, read_service_name-StandsAt,
  read_msg_req-StandsAt,
}

-- What a struct has to keep to for its package to be read back: the strings fit the arrays of
-- `decode` and hold no NUL, there is a message number, and the package is shorter than 2 ^ 31.
pub record Fits (d : FlconcPbStruct) : Type 0 where
  pub msg_some : 0 < length d.msg_req
  pub msg_fits : length d.msg_req < 50
  pub msg_text : NoNul d.msg_req
  pub name_fits : length d.service_full_name < 512
  pub name_text : NoNul d.service_full_name
  pub info_fits : length d.err_info < 512
  pub info_text : NoNul d.err_info
  pub code_range : IsInt32 d.err_code
  pub size_range : package_size d < 2 ^ 31

int32_of_lt : (n : ℕ) → n < 2 ^ 31 → int32 n ≡ pos n
int32_of_lt n h = ground arith

-- A package with `t` behind it, from each of its strings on.
abbrev pub from_data : FlconcPbStruct → Bytes → Bytes
from_data d t = d.pb_data ++ (net32 (pos 1) ++ (pb_end ∷ t))

abbrev pub from_code : FlconcPbStruct → Bytes → Bytes
from_code d t =
    net32 d.err_code ++ (net32 (pos (length d.err_info)) ++ (d.err_info ++ from_data d t))

abbrev pub from_name : FlconcPbStruct → Bytes → Bytes
from_name d t = net32 (pos (length d.service_full_name)) ++ (d.service_full_name ++ from_code d t)

abbrev pub from_msg : FlconcPbStruct → Bytes → Bytes
from_msg d t = net32 (pos (length d.msg_req)) ++ (d.msg_req ++ from_name d t)

abbrev pub framed : FlconcPbStruct → Bytes → Bytes
framed d t = pb_start ∷ (net32 (pos (package_size d)) ++ from_msg d t)

pub pack-framed : (d : FlconcPbStruct) (t : Bytes) → Fits d → pack d ++ t ≡ framed d t
pack-framed d t f =
    rw
      (
        int32_of_lt (package_size d) f.size_range,
        int32_of_lt (length d.msg_req) (omega (arith, f.msg_fits)),
        int32_of_lt (length d.service_full_name) (omega (arith, f.name_fits)),
        int32_of_lt (length d.err_info) (omega (arith, f.info_fits)),
      )
      (simp append_assoc)

-- All of a package but its last byte.
abbrev pub body : FlconcPbStruct → Bytes
body d =
    pb_start
    ∷ (net32 (pos (package_size d))
        ++ (net32 (pos (length d.msg_req))
            ++ (d.msg_req
                ++ (net32 (pos (length d.service_full_name))
                    ++ (d.service_full_name
                        ++ (net32 d.err_code
                            ++ (net32 (pos (length d.err_info))
                                ++ (d.err_info ++ (d.pb_data ++ net32 (pos 1))))))))))

pub body-framed : (d : FlconcPbStruct) (t : Bytes) → framed d t ≡ body d ++ (pb_end ∷ t)
body-framed d t = simp append_assoc

pub length-body : (d : FlconcPbStruct) → length (body d) + 1 ≡ package_size d
length-body d = simp length-append (omega arith)

data_len_pos :
    (a b c e n : ℕ)
    → a ≡ 26 + n + b + c + e
    → pos a -ℤ pos b -ℤ pos c -ℤ pos e -ℤ pos 2 -ℤ pos 24 ≡ pos n
data_len_pos a b c e n h = ground arith

-- The struct that `decode` leaves for the package of `d`.
abbrev pub received : FlconcPbStruct → FlconcPbStruct → FlconcPbStruct
received d prior = record prior {
  decode_succ = true;
  pk_len = pos (package_size d);
  msg_req_len = pos (length d.msg_req);
  msg_req = d.msg_req;
  service_name_len = pos (length d.service_full_name);
  service_full_name = d.service_full_name;
  err_code = d.err_code;
  err_info_len = pos (length d.err_info);
  err_info = d.err_info;
  pb_data = d.pb_data;
}

-- Past a length and the string behind it.
skip_string :
    (tmp : Bytes) (i : ℕ) (z : ℤ) (ys more : Bytes)
    → StandsAt tmp i (net32 z) (ys ++ more)
    → drop (i + 4 + length ys) tmp ≡ more
skip_string tmp i z ys more h =
    StandsAt-next tmp (i + 4) (i + 4 + length ys) ys more refl
      (StandsAt-next tmp i (i + 4) (net32 z) (ys ++ more) (omega arith) h)

module _ (tmp : Bytes) (s : ℕ) (d : FlconcPbStruct) (t : Bytes) (f : Fits d)
    (h : drop s tmp ≡ framed d t) where
  abbrev pub at_end : ℕ
  at_end = s + package_size d - 1

  abbrev pub at_msg : ℕ
  at_msg = s + 5

  abbrev pub at_name : ℕ
  at_name = at_msg + 4 + length d.msg_req

  abbrev pub at_code : ℕ
  at_code = at_name + 4 + length d.service_full_name

  msg_stands : drop at_msg tmp ≡ from_msg d t
  msg_stands =
      StandsAt-next tmp s at_msg (pb_start ∷ net32 (pos (package_size d))) (from_msg d t)
        (omega arith) h

  name_stands : drop at_name tmp ≡ from_name d t
  name_stands = skip_string tmp at_msg (pos (length d.msg_req)) d.msg_req (from_name d t) msg_stands

  code_stands : drop at_code tmp ≡ from_code d t
  code_stands =
      skip_string tmp at_name (pos (length d.service_full_name)) d.service_full_name (from_code d t)
        name_stands

  data_stands : drop (at_code + 8 + length d.err_info) tmp ≡ from_data d t
  data_stands =
      let e : at_code + 4 + 4 + length d.err_info ≡ at_code + 8 + length d.err_info = omega arith in
      subst (λ k. drop k tmp ≡ from_data d t) e
        (skip_string tmp (at_code + 4) (pos (length d.err_info)) d.err_info (from_data d t)
          (StandsAt-next tmp at_code (at_code + 4) (net32 d.err_code) _ (omega arith) code_stands))

  pub read_fields :
      (prior : FlconcPbStruct)
      → read_msg_req tmp at_end at_msg
          (record prior { pk_len = pos (package_size d); decode_succ = false })
        ≡ some (received d prior)
  read_fields prior =
      read_msg_req-StandsAt tmp at_end at_msg _ d.msg_req (from_name d t) msg_stands (omega arith)
        f.msg_text f.msg_some f.msg_fits (omega arith)
      ∙ read_service_name-StandsAt tmp at_end at_name _ d.service_full_name (from_code d t)
          name_stands (omega arith) f.name_text f.name_fits (omega arith) (le→ltb _ _ (omega arith))
      ∙ read_err_info-StandsAt tmp at_end at_code _ d.err_code d.err_info (from_data d t)
          code_stands (omega (arith, length-append d.pb_data (net32 (pos 1) ++ (pb_end ∷ t))))
          f.code_range f.info_text f.info_fits (omega arith)
      ∙ read_pb_data-StandsAt tmp at_end (at_code + 8 + length d.err_info) _ d.pb_data
          (net32 (pos 1) ++ (pb_end ∷ t))
          (omega (arith, length-append d.pb_data (net32 (pos 1) ++ (pb_end ∷ t)))) data_stands
          (omega arith)
          (data_len_pos (package_size d) (length d.service_full_name) (length d.msg_req)
            (length d.err_info) (length d.pb_data) (omega arith))
