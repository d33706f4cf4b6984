-- ===== src/Comm/MySql/Transactions.antt =====
-- flconc/comm/mysql_instase.cc: a transaction on a connection that works.
use flconc.Base.{
  ◌≡◌, refl, sym, ap, ◌∙◌, true, false, ℕ, Bytes, List, [], ◌∷◌, ◌++◌, Option, some, ◌>>=◌,
  if◌then◌else◌, Returns, append_assoc, append-nil,
}
use flconc.Base.Int.{ℤ, pos}
use flconc.Comm.MySql.{
  MySqlLibrary, MySqlInstase, begin_text, commit_text, query, query_on, queried, real_query,
  with_handler, begin, commit, set_in_trans, is_success,
}

module _ {L : Type 0} (lib : MySqlLibrary L) where
  -- The statements, one after the other, and the last answer that is an error.
  unfoldable pub queries : List Bytes → MySqlInstase L → Option (ℤ × MySqlInstase L)
  queries [] i = some (pos 0, i)
  queries (sql ∷ sqls) i = do
    r ← query lib sql i
    r' ← queries sqls r.1
    some (if is_success r.0 then r'.0 else r.0, r'.1)

  -- `begin`, the statements and `commit`.
  unfoldable pub transaction : List Bytes → MySqlInstase L → Option (ℤ × MySqlInstase L)
  transaction sqls i = do
    r ← begin lib i
    r' ← queries sqls r.1
    r'' ← commit lib r'.1
    some (if is_success r'.0 then r''.0 else r'.0, r''.1)

  module _ (executed : L → List Bytes) (h : ℕ)
      (works : (sql : Bytes) (l : L)
        → ((lib.mysql_real_query h sql l).0 ≡ pos 0)
          × (executed (lib.mysql_real_query h sql l).1 ≡ executed l ++ sql ∷ [])) where
    -- The instance is connected with this handle.
    abbrev pub IsConnected : MySqlInstase L → Type 0
    IsConnected i = (i.m_init_succ ≡ true) × (i.m_sql_handler ≡ some h)

    query-executes :
        (sql : Bytes) (i : MySqlInstase L)
        → IsConnected i
        → query lib sql i
          ≡ some (pos 0, record i { library = (lib.mysql_real_query h sql i.library).1 })
    unfolding query query_on queried real_query with_handler
    query-executes sql i (s, c) = simp (c, s, (works sql i.library).0)

    queries-executed :
        (sqls : List Bytes) (i : MySqlInstase L)
        → IsConnected i
        → Returns (queries sqls i) (λ r.
          (r.0 ≡ pos 0)
          × IsConnected r.1
          × (r.1.m_in_trans ≡ i.m_in_trans)
          × (executed r.1.library ≡ executed i.library ++ sqls))
    unfolding queries
    queries-executed [] i c =
        ((pos 0, i), refl, (refl, c, refl, sym (append-nil (executed i.library))))
    queries-executed (sql ∷ sqls) i c =
        let i₁ : MySqlInstase L = record i { library = (lib.mysql_real_query h sql i.library).1 } in
        let (r, e, (z, c', t, x)) = queries-executed sqls i₁ c in
        (
          (r.0, r.1),
          simp (query-executes sql i c, e),
          (
            z,
            c',
            t,
            x
                ∙ ap (λ xs. xs ++ sqls) (works sql i.library).1
                ∙ append_assoc (executed i.library) (sql ∷ []) sqls,
          ),
        )

    -- On a connected instance whose handle takes every statement: `begin`, any statements and `commit` answer
    -- 0, the server has executed BEGIN, the statements in order, and COMMIT, each once, and the
    -- instance is connected and in no transaction.
    pub transaction-executes :
        (sqls : List Bytes) (i : MySqlInstase L)
        → i.m_init_succ ≡ true
        → i.m_sql_handler ≡ some h
        → Returns (transaction sqls i) (λ r.
          (r.0 ≡ pos 0)
          × (r.1.m_in_trans ≡ false)
          × (r.1.m_sql_handler ≡ some h)
          × (executed r.1.library
              ≡ executed i.library ++ (begin_text ∷ (sqls ++ commit_text ∷ []))))
    unfolding transaction begin commit set_in_trans
    transaction-executes sqls i s c =
        let l₁ : L = (lib.mysql_real_query h begin_text i.library).1 in
        let i₁ : MySqlInstase L = record i { m_in_trans = true; library = l₁ } in
        let (r, e, (z, c', t, x)) = queries-executed sqls i₁ (s, c) in
        let l₂ : L = (lib.mysql_real_query h commit_text r.1.library).1 in
        (
          (pos 0, record r.1 { m_in_trans = false; library = l₂ }),
          simp (query-executes begin_text i (s, c), e, z, query-executes commit_text r.1 c'),
          (
            refl,
            refl,
            c'.1,
            (works commit_text r.1.library).1
                ∙ ap (λ xs. xs ++ commit_text ∷ [])
                    (x ∙ ap (λ xs. xs ++ sqls) (works begin_text i.library).1)
                ∙ ap (λ xs. xs ++ commit_text ∷ [])
                    (append_assoc (executed i.library) (begin_text ∷ []) sqls)
                ∙ append_assoc (executed i.library) (begin_text ∷ sqls) (commit_text ∷ []),
          ),
        )
