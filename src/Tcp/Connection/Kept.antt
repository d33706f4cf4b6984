-- ===== src/Tcp/Connection/Kept.antt =====
-- flconc/net/tcp/tcp_connection.cc: `output` changes nothing but the write buffer.
use mathlib.Core.Option.{some-injective}
use flconc.Base.{
  ℕ, ◌≡◌, refl, ap, ◌∙◌, Bool, true, false, Bytes, List, [], ◌∷◌, Option, some, ◌&&◌, not, subst,
  Bool-cases, inl, inr, >>=-eq-some, if◌then◌else◌,
}
use flconc.Base.Int.{pos}
use flconc.Tcp.Buffer.{read_able, recycle_read}
use flconc.Tcp.Connection.{
  TcpConnection, is_connected, is_zero, Written, sent_bytes, written, go_on, output_round,
  output_loop, output,
}
use flconc.Tcp.Connection.Output.{Accepts, done, more}

abbrev pub Keeps : TcpConnection → TcpConnection → Type 0
Keeps c r =
    (r.m_state ≡ c.m_state)
    × (r.m_read_buffer ≡ c.m_read_buffer)
    × (r.m_reply_datas ≡ c.m_reply_datas)
    × (r.m_is_over_time ≡ false)

written-Keeps :
    (k : ℕ) (c : TcpConnection) (r : TcpConnection × Bool)
    → written (record { rt = pos k; is_over_time = false }) c ≡ some r
    → Keeps c r.0
unfolding written
written-Keeps k c r h =
    let (b, e, q) = >>=-eq-some (recycle_read c.m_write_buffer (pos k)) _ h in
    subst (λ t. Keeps c t.0) (some-injective _ _ q) (refl, refl, refl, refl)

abbrev Loop : Type 0
Loop = TcpConnection → Option (TcpConnection × Bytes)

go_on-Keeps :
    (sent : Bytes) (loop : Loop) (c : TcpConnection) (b : Bool) (r : TcpConnection × Bytes)
    → c.m_is_over_time ≡ false
    → ((r : TcpConnection × Bytes) → loop c ≡ some r → Keeps c r.0)
    → go_on sent loop (c, b) ≡ some r
    → Keeps c r.0
unfolding go_on
go_on-Keeps sent loop c true r o k h =
    subst (λ t. Keeps c t.0) (some-injective _ _ h) (refl, refl, refl, o)
go_on-Keeps sent loop c false r o k h =
    let (s, e, q) = >>=-eq-some (loop c) _ h in
    subst (λ t. Keeps c t.0) (some-injective _ _ q) (k s e)

Keeps-trans : (a b c : TcpConnection) → Keeps a b → Keeps b c → Keeps a c
Keeps-trans a b c (p, q, r, s) (p', q', r', s') = (p' ∙ p, q' ∙ q, r' ∙ r, s')

pub output_loop-Keeps :
    (ws : List Written) (n : ℕ) (c : TcpConnection) (r : TcpConnection × Bytes)
    → Accepts ws n
    → c.m_is_over_time ≡ false
    → output_loop ws c ≡ some r
    → Keeps c r.0
unfolding output_loop output_round
output_loop-Keeps [] n c r done o h =
    subst (λ t. Keeps c t.0) (some-injective _ _ h) (refl, refl, refl, o)
output_loop-Keeps (w ∷ ws) n c r (more {n = m} k p a) o h =
    elim (Bool-cases (is_connected c.m_state && not (is_zero (read_able c.m_write_buffer)))) [
      | inr e ↦ subst (λ t. Keeps c t.0) (some-injective _ _ (rw e at h)) (refl, refl, refl, o)
      | inl e ↦
          let (sent, f, g) = >>=-eq-some (sent_bytes c.m_write_buffer (pos k)) _ (rw e at h) in
          let (s, f', g') =
            >>=-eq-some (written (record { rt = pos k; is_over_time = false }) c) _ g in
          let first : Keeps c s.0 = written-Keeps k c s f' in
          Keeps-trans c s.0 r.0 first (
            go_on-Keeps sent (output_loop ws) s.0 s.1 r first.3
              (λ r' e'. output_loop-Keeps ws m s.0 r' a first.3 e') g')
    ]

pub output-output_loop :
    (ws : List Written) (c : TcpConnection)
    → c.m_is_over_time ≡ false
    → output ws c ≡ output_loop ws c
unfolding output
output-output_loop ws c o = ap (λ b. if b then some (c, []) else output_loop ws c) o
