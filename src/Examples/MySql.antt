-- ===== src/Examples/MySql.antt =====
-- flconc/comm/mysql_instase.cc over a library that lists the statements it has executed.
use flconc.Base.{◌≡◌, refl, true, false, Bytes, List, [], ◌∷◌, ◌++◌, some, Returns}
use flconc.Base.Int.{ℤ, pos}
use flconc.Base.Text.{codes}
use flconc.Comm.MySql.{
  MySqlLibrary, MySqlInstase, begin_text, commit_text, connect, close_handler, reconnect, query,
  set_char_set,
}
use flconc.Comm.MySql.Transactions.{transaction, transaction-executes}
use flconc.Comm.MySql.Lost.{Executes, query-lost}

-- The answer of a statement is an argument; every connection succeeds.
abbrev library : ℤ → MySqlLibrary (List Bytes)
library rt = record {
  mysql_init = λ l. (some 1, l);
  mysql_options = λ h text l. l;
  mysql_real_connect = λ h option l. (true, l);
  mysql_close = λ h l. l;
  mysql_real_query = λ h sql l. (rt, l ++ sql ∷ []);
  is_gone_or_lost = λ h l. true;
  mysql_field_count = λ h l. 0;
  mysql_store_result = λ h l. (some 1, l);
  mysql_num_fields = λ res l. pos 0;
  mysql_free_result = λ res l. l;
  mysql_affected_rows = λ h l. pos 0;
}

abbrev instase : MySqlInstase (List Bytes)
instase = record {
  m_option = record {
    m_addr = record { m_ip = codes "1.2.3.4"; m_port = 3306 };
    m_user = [];
    m_passwd = [];
    m_select_db = [];
    m_char_set = codes "utf8";
  };
  m_init_succ = true;
  m_in_trans = true;
  m_sql_handler = some 1;
  library = [];
}

abbrev statements : List Bytes
statements = codes "A;" ∷ codes "B;" ∷ []

transaction-executes_example : Returns (transaction (library (pos 0)) statements instase) (λ r.
    (r.0 ≡ pos 0)
    × (r.1.m_in_trans ≡ false)
    × (r.1.m_sql_handler ≡ some 1)
    × (r.1.library ≡ [] ++ (begin_text ∷ (statements ++ commit_text ∷ []))))
transaction-executes_example =
    transaction-executes (library (pos 0)) (λ l. l) 1 (λ sql l. (refl, refl)) statements instase
      refl refl

nothing_else-Executes : Executes (library (pos 1)) (λ l. l)
nothing_else-Executes = record {
  on_init = λ l. refl;
  on_options = λ h text l. refl;
  on_connect = λ h option l. refl;
  on_close = λ h l. refl;
}

query-lost_example :
    (i : MySqlInstase (List Bytes)) × (query (library (pos 1)) (codes "A;") instase
      ≡ some (pos 0, i))
    × (i.library ≡ codes "A;" ∷ [])
    × (i.m_in_trans ≡ true)
unfolding connect close_handler reconnect set_char_set
query-lost_example =
    query-lost (library (pos 1)) (λ l. l) nothing_else-Executes (codes "A;") 1 instase refl refl
      refl refl refl
