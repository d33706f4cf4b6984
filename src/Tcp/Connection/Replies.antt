-- ===== src/Tcp/Connection/Replies.antt =====
-- flconc/net/tcp/tcp_connection.cc: the replies of a client, and the states of a connection.
use flconc.Base.{
  ◌≡◌, refl, sym, ap, ◌∙◌, Bool, true, false, List, [], ◌∷◌, none, some, if◌then◌else◌, subst,
  same_bytes, same_bytes_refl, Bool-cases, Option-cases, inl, inr, ◌⊎◌, arith,
}
use flconc.Flconcpb.Data.{FlconcPbStruct}
use flconc.Tcp.Connection.{
  TcpConnection, half_closing, closed, insert_reply, take_reply, is_closed, is_shut, clear_client,
  shutdown_connection,
}

-- A reply under a number that has none yet is inserted, and `getResPackageData` finds it and leaves the
-- other replies.
pub take_reply-insert_reply :
    (d : FlconcPbStruct) (es : List FlconcPbStruct)
    → take_reply d.msg_req es ≡ none
    → take_reply d.msg_req (insert_reply d es) ≡ some (d, es)
unfolding take_reply insert_reply
take_reply-insert_reply d [] h = rw (same_bytes_refl d.msg_req) refl
take_reply-insert_reply d (e ∷ es) h = elim (Bool-cases (same_bytes e.msg_req d.msg_req)) [
  | inl s ↦ cc (rw s at h)
  | inr s ↦ elim (Option-cases (take_reply d.msg_req es)) [
    | inl n ↦ rw (s, s, take_reply-insert_reply d es n) refl
    | inr (r, n) ↦ cc (rw (s, n) at h)
  ]
]

pub data Call : Type 0 where
  clears shuts : Call

pub call : TcpConnection → Call → TcpConnection
call c clears = clear_client c
call c shuts = (shutdown_connection c).0

pub calls : TcpConnection → List Call → TcpConnection
calls c [] = c
calls c (x ∷ xs) = calls (call c x) xs

-- The descriptor was closed once, and the loop told to stop, or never, and the connection is open.
abbrev pub ClosesOnce : TcpConnection → Type 0
ClosesOnce c =
    (c.m_state ≡ closed) × (c.closes ≡ 1) × (c.m_stop ≡ true)
    ⊎ (is_closed c.m_state ≡ false) × (c.closes ≡ 0)

call-ClosesOnce : (c : TcpConnection) (x : Call) → ClosesOnce c → ClosesOnce (call c x)
unfolding call clear_client shutdown_connection
call-ClosesOnce c clears h = elim (Bool-cases (is_closed c.m_state)) [
  | inl s ↦ elim h [ inl q ↦ simp s (inl q) | inr (p, _) ↦ absurd (cc (sym s ∙ p)) ]
  | inr s ↦ elim h [
    | inl (e, _, _) ↦ absurd (cc (sym s ∙ ap is_closed e))
    | inr (_, z) ↦ simp s (inl (refl, omega (arith, z), refl))
  ]
]
call-ClosesOnce c shuts h =
    let shut : Bool → TcpConnection × Bool =
      λ b. if b then (c, false) else (record c { m_state = half_closing }, true) in
    elim (Bool-cases (is_shut c.m_state)) [
      | inl s ↦ subst (λ b. ClosesOnce (shut b).0) (sym s) h
      | inr s ↦ elim h [
        | inl (e, _, _) ↦ absurd (cc (sym s ∙ ap is_shut e))
        | inr (_, z) ↦ subst (λ b. ClosesOnce (shut b).0) (sym s) (inr (refl, z))
      ]
    ]

-- However often `clearClient` and `shutdownConnection` are called, the descriptor is closed at most
-- once: it was closed once and the loop told to stop, or never, and the connection is not closed.
pub calls-ClosesOnce : (c : TcpConnection) (xs : List Call) → ClosesOnce c → ClosesOnce (calls c xs)
unfolding calls
calls-ClosesOnce c [] h = h
calls-ClosesOnce c (x ∷ xs) h = calls-ClosesOnce (call c x) xs (call-ClosesOnce c x h)
