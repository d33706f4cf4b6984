-- ===== src/Comm/MySql/Lost.antt =====
-- flconc/comm/mysql_instase.cc: a statement on a connection that was lost.
use flconc.Base.{
  ◌≡◌, refl, ◌∙◌, true, false, ℕ, Bytes, List, Option, none, some, is_empty, Bool-cases, inl, inr,
}
use flconc.Base.Int.{pos}
use flconc.Comm.MySql.{
  MySqlOption, MySqlLibrary, MySqlInstase, is_success, close_handler, set_char_set, connect,
  reconnect, query, query_on, queried, reconnected, real_query, with_handler,
}

module _ {L : Type 0} (lib : MySqlLibrary L) (executed : L → List Bytes) where
  -- Only `mysql_real_query` executes statements.
  pub record Executes : Type 0 where
    pub on_init : (l : L) → executed (lib.mysql_init l).1 ≡ executed l
    pub on_options :
        (h : ℕ) (text : Bytes) (l : L) → executed (lib.mysql_options h text l) ≡ executed l
    pub on_connect :
        (h : ℕ) (option : MySqlOption) (l : L)
        → executed (lib.mysql_real_connect h option l).1 ≡ executed l
    pub on_close : (h : ℕ) (l : L) → executed (lib.mysql_close h l) ≡ executed l

  -- The handle there is gets the statement.
  query-connected :
      (sql : Bytes) (h : ℕ) (i : MySqlInstase L)
      → i.m_init_succ ≡ true
      → i.m_sql_handler ≡ some h
      → query lib sql i
        ≡ queried lib h sql (
          (lib.mysql_real_query h sql i.library).0,
          record i { library = (lib.mysql_real_query h sql i.library).1 },
        )
  unfolding query query_on real_query with_handler
  query-connected sql h i s c = simp (c, s)

  close_handler-in_trans :
      (handler : Option ℕ) (i : MySqlInstase L)
      → (close_handler lib handler i).m_in_trans ≡ i.m_in_trans
  unfolding close_handler
  close_handler-in_trans none i = refl
  close_handler-in_trans (some h) i = refl

  connect-in_trans :
      (handler : Option ℕ) (l : L) (i : MySqlInstase L)
      → (connect lib (handler, l) i).1.m_in_trans ≡ i.m_in_trans
  unfolding connect
  connect-in_trans none l i = refl
  connect-in_trans (some h) l i = refl

  reconnect-in_trans : (i : MySqlInstase L) → (reconnect lib i).1.m_in_trans ≡ i.m_in_trans
  unfolding reconnect
  reconnect-in_trans i =
      let i' : MySqlInstase L = close_handler lib i.m_sql_handler i in
      connect-in_trans (lib.mysql_init i'.library).0 (lib.mysql_init i'.library).1 i'
      ∙ close_handler-in_trans i.m_sql_handler i

  module _ (x : Executes) where
    close_handler-executed :
        (handler : Option ℕ) (i : MySqlInstase L)
        → executed (close_handler lib handler i).library ≡ executed i.library
    unfolding close_handler
    close_handler-executed none i = refl
    close_handler-executed (some h) i = x.on_close h i.library

    set_char_set-executed :
        (h : ℕ) (option : MySqlOption) (l : L) → executed (set_char_set lib h option l) ≡ executed l
    unfolding set_char_set
    set_char_set-executed h option l = elim (Bool-cases (is_empty option.m_char_set)) [
      | inl e ↦ simp e
      | inr e ↦ simp e (x.on_options h option.m_char_set l)
    ]

    connect-executed :
        (handler : Option ℕ) (l : L) (i : MySqlInstase L)
        → executed (connect lib (handler, l) i).1.library ≡ executed l
    unfolding connect
    connect-executed none l i = refl
    connect-executed (some h) l i =
        x.on_connect h i.m_option (set_char_set lib h i.m_option l)
        ∙ set_char_set-executed h i.m_option l

    reconnect-executed :
        (i : MySqlInstase L) → executed (reconnect lib i).1.library ≡ executed i.library
    unfolding reconnect
    reconnect-executed i =
        let i' : MySqlInstase L = close_handler lib i.m_sql_handler i in
        connect-executed (lib.mysql_init i'.library).0 (lib.mysql_init i'.library).1 i'
        ∙ x.on_init i'.library
        ∙ close_handler-executed i.m_sql_handler i

    -- On a connected instance whose server is lost while the statement is sent, and can be connected to
    -- again: `query` answers 0, as for a success, although nothing has been executed since the call
    -- that failed; and a transaction that was open is still marked as open.
    pub query-lost :
        (sql : Bytes) (h : ℕ) (i : MySqlInstase L)
        → i.m_init_succ ≡ true
        → i.m_sql_handler ≡ some h
        → is_success (lib.mysql_real_query h sql i.library).0 ≡ false
        → lib.is_gone_or_lost h (lib.mysql_real_query h sql i.library).1 ≡ true
        → (reconnect lib (record i { library = (lib.mysql_real_query h sql i.library).1 })).0
          ≡ pos 0
        → (i' : MySqlInstase L) × (query lib sql i ≡ some (pos 0, i'))
          × (executed i'.library ≡ executed (lib.mysql_real_query h sql i.library).1)
          × (i'.m_in_trans ≡ i.m_in_trans)
    unfolding queried reconnected
    query-lost sql h i s c f g z =
        let i₁ : MySqlInstase L = record i { library = (lib.mysql_real_query h sql i.library).1 } in
        (
          (reconnect lib i₁).1,
          query-connected sql h i s c ∙ simp (f, g, z),
          reconnect-executed i₁,
          reconnect-in_trans i₁,
        )
