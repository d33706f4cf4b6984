-- ===== src/Comm/Config/ServerStage.antt =====
-- flconc/comm/config.cc: the texts that a successful `readConf` has read of the server.
use flconc.Base.{◌≡◌, false, Bytes, [], ◌∷◌, Option, some, Bool-cases, inl, inr}
use flconc.Base.Int.{ℤ, pos, eq_ℤ}
use flconc.Base.Text.{codes}
use flconc.Http.Message.{atoi}
use flconc.Comm.Config.Reading.{has, >>=-eq-has, or_faults, or_exits-eq-has, or_faults-eq-has}
use flconc.Comm.Config.{
  Config, Conf, server_ip, server_names, finish, child_of, read_port, read_server,
}
use flconc.Comm.Config.Describes.{text_at}
use flconc.Comm.Config.Stages.{At}

module _ {N : Type 0} (first_child_element : N → Bytes → Option N)
    (get_text : N → Option Bytes) where
  -- The text of a node that was found below another.
  text_in :
      {root node child : N} (parent name t : Bytes)
      → first_child_element root parent ≡ some node
      → child_of first_child_element get_text server_names node name ≡ has child
      → get_text child ≡ some t
      → At first_child_element get_text root (parent ∷ name ∷ []) t
  unfolding text_at child_of
  text_in parent name t e f g = simp (e, or_exits-eq-has server_names _ f, g)

  pub record ServerTexts (file_path : Bytes) (root : N) (c : Config) (conf : Conf) : Type 0 where
    pub ip : Bytes
    pub port : Bytes
    pub protocal : Bytes
    pub at_ip : At first_child_element get_text root (codes "server" ∷ codes "ip" ∷ []) ip
    pub at_port : At first_child_element get_text root (codes "server" ∷ codes "port" ∷ []) port
    pub at_protocal :
        At first_child_element get_text root (codes "server" ∷ codes "protocal" ∷ []) protocal
    pub has_port : eq_ℤ (atoi port) (pos 0) ≡ false
    pub done : finish file_path c (server_ip ip) (atoi port) protocal ≡ has conf

  read_port-eq-has :
      (file_path : Bytes) (c : Config) (ip : Bytes) (node : N) (port : ℤ) (conf : Conf)
      → read_port first_child_element get_text file_path c ip node port ≡ has conf
      → (eq_ℤ port (pos 0) ≡ false)
        × (protocal : Bytes) × (get_text node ≡ some protocal)
        × (finish file_path c (server_ip ip) port protocal ≡ has conf)
  unfolding read_port
  read_port-eq-has file_path c ip node port conf h = elim (Bool-cases (eq_ℤ port (pos 0))) [
    | inl z ↦ absurd (cc (rw z at h))
    | inr z ↦
        let (t, e, g) = >>=-eq-has (or_faults (get_text node)) _ (rw z at h) in
        (z, t, or_faults-eq-has (get_text node) e, g)
  ]

  pub read_server-ServerTexts :
      (file_path : Bytes) (root node : N) (c : Config) (conf : Conf)
      → first_child_element root (codes "server") ≡ some node
      → read_server first_child_element get_text file_path node c ≡ has conf
      → ServerTexts file_path root c conf
  unfolding read_server
  read_server-ServerTexts file_path root node c conf e h =
      let (n₁, e₁, h₁) =
        >>=-eq-has (child_of first_child_element get_text server_names node (codes "ip")) _ h in
      let (n₂, e₂, h₂) =
        >>=-eq-has (child_of first_child_element get_text server_names node (codes "port")) _ h₁ in
      let (n₃, e₃, h₃) =
        >>=-eq-has (child_of first_child_element get_text server_names node (codes "protocal")) _
          h₂ in
      let (ip, e₄, h₄) = >>=-eq-has (or_faults (get_text n₁)) _ h₃ in
      let (port, e₅, h₅) = >>=-eq-has (or_faults (get_text n₂)) _ h₄ in
      let (z, protocal, e₆, g) = read_port-eq-has file_path c ip n₃ (atoi port) conf h₅ in
      record {
        ip = ip;
        port = port;
        protocal = protocal;
        at_ip = text_in (codes "server") (codes "ip") ip e e₁ (or_faults-eq-has _ e₄);
        at_port = text_in (codes "server") (codes "port") port e e₂ (or_faults-eq-has _ e₅);
        at_protocal = text_in (codes "server") (codes "protocal") protocal e e₃ e₆;
        has_port = z;
        done = g;
      }
