-- ===== src/Tcp/Connection/Execute/Rounds.antt =====
-- flconc/net/tcp/tcp_connection.cc: the loop of `execute` ends.
use flconc.Base.{
  ℕ, zero, suc, ◌≤◌, ◌<◌, ◌≡◌, refl, sym, ap, Bytes, [], ◌∷◌, Option, some, arith, length, drop,
  length-drop, Bool-cases, Option-cases, inl, inr, >>=-eq-some,
}
use mathlib.Core.Option.{some-injective}
use flconc.Comm.MsgReq.{MsgReqUtil}
use flconc.Tcp.Buffer.{TcpBuffer, read_able}
use flconc.Tcp.Buffer.Refine.{Holds, read_able-Holds}
use flconc.Flconcpb.Data.{FlconcPbStruct, fresh_struct}
use flconc.Flconcpb.Decode.{decode}
use flconc.Flconcpb.Progress.{decode-Shrinks}
use flconc.Flconcpb.Dispatch.{dispatch}
use flconc.Tcp.Connection.{TcpConnection, is_not_positive}
use flconc.Tcp.Connection.Execute.{
  ConnectionType, server_connection, client_connection, handle, handled, execute_round,
  execute_loop,
}

-- What is done with a package leaves the read buffer alone.
handle-reads :
    (kind : ConnectionType) (d : FlconcPbStruct) (c : TcpConnection) (u : MsgReqUtil)
    (r : TcpConnection × MsgReqUtil)
    → handle kind d c u ≡ some r
    → r.0.m_read_buffer ≡ c.m_read_buffer
unfolding handle
handle-reads (server_connection services) d c u r e =
    let (s, p, q) = >>=-eq-some (dispatch services d c.m_write_buffer u) _ e in
    ap (λ t. t.0.m_read_buffer) (sym (some-injective _ _ q))
handle-reads client_connection d c u r e = ap (λ t. t.0.m_read_buffer) (sym (some-injective _ _ e))

abbrev Loop : Type 0
Loop = TcpConnection → MsgReqUtil → Option (TcpConnection × MsgReqUtil)

-- Two loops that agree on every shorter queue give the same round.
execute_round-same :
    (kind : ConnectionType) (f g : Loop) (c : TcpConnection) (u : MsgReqUtil) (xs : Bytes)
    (r : TcpBuffer × FlconcPbStruct)
    → Holds c.m_read_buffer xs
    → decode c.m_read_buffer fresh_struct ≡ some r
    → ((c' : TcpConnection) (u' : MsgReqUtil) (ys : Bytes)
        → Holds c'.m_read_buffer ys
        → length ys < length xs
        → f c' u' ≡ g c' u')
    → execute_round kind f c u r ≡ execute_round kind g c u r
unfolding execute_round handled
execute_round-same kind f g c u xs (b, d) h e same = elim (Bool-cases d.decode_succ) [
  | inr s ↦ simp s
  | inl s ↦
      let (n, p, l, q) = decode-Shrinks fresh_struct (b, d) h refl e s in
      elim (Option-cases (handle kind d (record c { m_read_buffer = b }) u)) [
        | inl z ↦ simp (s, z)
        | inr (t, z) ↦
            let reads : t.0.m_read_buffer ≡ b =
              handle-reads kind d (record c { m_read_buffer = b }) u t z in
            let held : Holds t.0.m_read_buffer (drop n xs) = rw reads q in
            simp (s, z, same t.0 t.1 (drop n xs) held (omega (arith, p, l, length-drop n xs)))
      ]
]

-- A round for every unread byte of the read buffer is enough for the loop of `execute`: with more rounds
-- it does the same, a fault included, on a server and on a client and whatever the bytes are.
pub execute_loop-ends :
    (kind : ConnectionType) (n m : ℕ) (c : TcpConnection) (u : MsgReqUtil) (xs : Bytes)
    → Holds c.m_read_buffer xs
    → length xs ≤ n
    → n ≤ m
    → execute_loop kind m c u ≡ execute_loop kind n c u
unfolding execute_loop
execute_loop-ends kind zero zero c u xs h l k = refl
execute_loop-ends kind zero (suc m) c u (x ∷ xs) h l k = absurd (omega arith)
execute_loop-ends kind zero (suc m) c u [] h l k = rw (read_able-Holds h) refl
execute_loop-ends kind (suc n) zero c u xs h l k = absurd (omega arith)
execute_loop-ends kind (suc n) (suc m) c u xs h l k =
    elim (Bool-cases (is_not_positive (read_able c.m_read_buffer))) [
      | inl s ↦ simp s
      | inr s ↦ elim (Option-cases (decode c.m_read_buffer fresh_struct)) [
        | inl z ↦ simp (s, z)
        | inr (r, z) ↦ simp (
          s,
          z,
          execute_round-same kind (execute_loop kind m) (execute_loop kind n) c u xs r h z
              (λ c' u' ys held short.
                execute_loop-ends kind n m c' u' ys held (omega arith) (omega arith)),
        )
      ]
    ]
