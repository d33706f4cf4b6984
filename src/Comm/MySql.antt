-- ===== src/Comm/MySql.antt =====
-- flconc/comm/mysql_instase.h and mysql_instase.cc, which are compiled with the MySQL plugin. The client library
-- of MySQL is a parameter, with a state of its own; a handle and a result are numbers. `none` is a
-- call on a null handle.
pub mod Transactions
pub mod Lost
use flconc.Base.{
  ℕ, ◌==◌, Bool, true, false, ◌&&◌, not, Bytes, List, [], ◌∷◌, Option, none, some, is_empty,
  same_bytes, if◌then◌else◌, ◌>>=◌,
}
use flconc.Base.Int.{ℤ, pos, negsuc, eq_ℤ}
use flconc.Base.Text.{codes}
use flconc.Net.Address.{IpAddress}

pub record MySqlOption : Type 0 where
  pub m_addr : IpAddress
  pub m_user : Bytes
  pub m_passwd : Bytes
  pub m_select_db : Bytes
  pub m_char_set : Bytes

-- The calls of the library. `is_gone_or_lost` is whether `mysql_errno` says that the server is gone or lost.
pub record MySqlLibrary (L : Type 0) : Type 0 where
  pub mysql_init : L → Option ℕ × L
  pub mysql_options : ℕ → Bytes → L → L
  pub mysql_real_connect : ℕ → MySqlOption → L → Bool × L
  pub mysql_close : ℕ → L → L
  pub mysql_real_query : ℕ → Bytes → L → ℤ × L
  pub is_gone_or_lost : ℕ → L → Bool
  pub mysql_field_count : ℕ → L → ℕ
  pub mysql_store_result : ℕ → L → Option ℕ × L
  pub mysql_num_fields : ℕ → L → ℤ
  pub mysql_free_result : ℕ → L → L
  pub mysql_affected_rows : ℕ → L → ℤ

-- With the state of the library.
pub record MySqlInstase (L : Type 0) : Type 0 where
  pub m_option : MySqlOption
  pub m_init_succ : Bool
  pub m_in_trans : Bool
  pub m_sql_handler : Option ℕ
  pub library : L

abbrev pub is_success : ℤ → Bool
is_success rt = eq_ℤ rt (pos 0)

abbrev pub begin_text : Bytes
begin_text = codes "BEGIN;"

abbrev pub commit_text : Bytes
commit_text = codes "COMMIT;"

abbrev pub rollback_text : Bytes
rollback_text = codes "ROLLBACK;"

module _ {L : Type 0} (lib : MySqlLibrary L) where
  unfoldable pub close_handler : Option ℕ → MySqlInstase L → MySqlInstase L
  close_handler none i = i
  close_handler (some h) i = record i {
    m_sql_handler = none;
    library = lib.mysql_close h i.library;
  }

  unfoldable pub set_char_set : ℕ → MySqlOption → L → L
  set_char_set h option l =
      if is_empty option.m_char_set then l else lib.mysql_options h option.m_char_set l

  -- `reconnect` behind `mysql_init`.
  unfoldable pub connect : Option ℕ × L → MySqlInstase L → ℤ × MySqlInstase L
  connect (none, l) i = (negsuc 0, record i { m_sql_handler = none; library = l })
  connect (some h, l) i =
      let r : Bool × L = lib.mysql_real_connect h i.m_option (set_char_set h i.m_option l) in
      (if r.0 then pos 0 else negsuc 0, record i { m_sql_handler = some h; library = r.1 })

  unfoldable pub reconnect : MySqlInstase L → ℤ × MySqlInstase L
  reconnect i =
      let i' : MySqlInstase L = close_handler i.m_sql_handler i in
      connect (lib.mysql_init i'.library) i'

  -- The constructor.
  unfoldable pub new_instase : MySqlOption → L → MySqlInstase L
  new_instase option l =
      let r : ℤ × MySqlInstase L = reconnect (record {
        m_option = option;
        m_init_succ = false;
        m_in_trans = false;
        m_sql_handler = none;
        library = l;
      }) in
      if is_success r.0 then record r.1 { m_init_succ = true } else r.1

  -- The destructor.
  unfoldable pub destroy : MySqlInstase L → MySqlInstase L
  destroy i = close_handler i.m_sql_handler i

  -- `mysql_real_query` on the handle there is.
  unfoldable pub real_query : Option ℕ → Bytes → MySqlInstase L → Option (ℤ × MySqlInstase L)
  real_query none sql i = none
  real_query (some h) sql i =
      let r : ℤ × L = lib.mysql_real_query h sql i.library in some (r.0, record i { library = r.1 })

  -- `query` behind the reconnection to a server that was lost.
  unfoldable pub reconnected : Bytes → ℤ × MySqlInstase L → Option (ℤ × MySqlInstase L)
  reconnected sql (rt, i) =
      if not (is_success rt) && not i.m_in_trans
      then real_query i.m_sql_handler sql i
      else some (rt, i)

  -- `query` behind the first `mysql_real_query`.
  unfoldable pub queried : ℕ → Bytes → ℤ × MySqlInstase L → Option (ℤ × MySqlInstase L)
  queried h sql (rt, i) =
      if is_success rt
      then some (rt, i)
      else if lib.is_gone_or_lost h i.library
      then reconnected sql (reconnect i)
      else some (rt, i)

  -- `query` behind the tests.
  unfoldable pub query_on : Option ℕ → Bytes → MySqlInstase L → Option (ℤ × MySqlInstase L)
  query_on none sql i = some (negsuc 0, i)
  query_on (some h) sql i = do r ← real_query (some h) sql i; queried h sql r

  -- A null handle is connected first.
  unfoldable pub with_handler : Option ℕ → MySqlInstase L → MySqlInstase L
  with_handler none i = (reconnect i).1
  with_handler (some h) i = i

  unfoldable pub query : Bytes → MySqlInstase L → Option (ℤ × MySqlInstase L)
  query sql i =
      let i' : MySqlInstase L = with_handler i.m_sql_handler i in
      if not i.m_init_succ then some (negsuc 0, i) else query_on i'.m_sql_handler sql i'

  -- The flag changes where the statement succeeds.
  unfoldable pub set_in_trans : Bool → ℤ × MySqlInstase L → ℤ × MySqlInstase L
  set_in_trans b (rt, i) = (rt, if is_success rt then record i { m_in_trans = b } else i)

  unfoldable pub commit : MySqlInstase L → Option (ℤ × MySqlInstase L)
  commit i = do r ← query commit_text i; some (set_in_trans false r)

  unfoldable pub begin : MySqlInstase L → Option (ℤ × MySqlInstase L)
  begin i = do r ← query begin_text i; some (set_in_trans true r)

  unfoldable pub roll_back : MySqlInstase L → Option (ℤ × MySqlInstase L)
  roll_back i = do r ← query rollback_text i; some (set_in_trans false r)

  -- The result of `mysql_store_result`, which may be null, where there are fields.
  unfoldable pub store_on : Option ℕ → MySqlInstase L → Option (Option ℕ × MySqlInstase L)
  store_on none i = none
  store_on (some h) i =
      let r : Option ℕ × L = lib.mysql_store_result h i.library in
      if lib.mysql_field_count h i.library == 0
      then some (none, i)
      else some (r.0, record i { library = r.1 })

  unfoldable pub store_result : MySqlInstase L → Option (Option ℕ × MySqlInstase L)
  store_result i = if not i.m_init_succ then some (none, i) else store_on i.m_sql_handler i

  unfoldable pub num_fields : ℕ → MySqlInstase L → ℤ
  num_fields res i = if not i.m_init_succ then negsuc 0 else lib.mysql_num_fields res i.library

  unfoldable pub free_result : Option ℕ → MySqlInstase L → MySqlInstase L
  free_result none i = i
  free_result (some res) i =
      if not i.m_init_succ then i else record i { library = lib.mysql_free_result res i.library }

  abbrev pub rows_on : Option ℕ → L → Option ℤ
  rows_on none l = none
  rows_on (some h) l = some (lib.mysql_affected_rows h l)

  unfoldable pub affected_rows : MySqlInstase L → Option ℤ
  affected_rows i = if not i.m_init_succ then some (negsuc 0) else rows_on i.m_sql_handler i.library

  -- The option of a key, in the map of the configuration.
  unfoldable pub find_option : Bytes → List (Bytes × MySqlOption) → Option MySqlOption
  find_option key [] = none
  find_option key ((k, option) ∷ options) =
      if same_bytes key k then some option else find_option key options

  -- `GetMySQLInstase`; `none` is the null pointer.
  unfoldable pub get_my_sql_instase :
      List (Bytes × MySqlOption) → Bytes → L → Option (MySqlInstase L)
  get_my_sql_instase options key l = do
    option ← find_option key options
    some (new_instase option l)
