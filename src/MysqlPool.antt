-- ===== src/MysqlPool.antt =====
-- mysqlpool/mysqlpool.c: the pool of database connections, over the database library that it calls. The library, its
-- exceptions included, is not in the repository: `Library` is what the file calls, `IsLawful` what it relies on.
-- `conenction` in line 23 stands for `connect`.
pub mod Return
mod Tests
use footprints_ev.Base.{ℕ, ◌≡◌, Bool, true, false, Option, none, some, List, [], ◌∷◌}

-- how a block of statements ends: it returns, or raises SQLException or another exception, with its message
pub data Ended (S : Type 0) : Type 0 where
  returned : S → Ended S
  sql_exception : List ℕ → S → Ended S
  other_exception : S → Ended S

-- Handles are numbers. `attempt` is TRY, CATCH(SQLException), FINALLY and END_TRY around a block, a handler and a last block.
pub record Library : Type 1 where
  pub State : Type 0
  pub url_new : List ℕ → State → ℕ × State
  pub url_free : ℕ → State → State
  pub pool_new : ℕ → State → ℕ × State
  pub pool_start : ℕ → State → State
  pub pool_free : ℕ → State → State
  pub get_connection : ℕ → State → Option ℕ × State
  pub execute : Option ℕ → List ℕ → State → Ended State
  pub close : Option ℕ → State → State
  pub attempt :
      (State → Ended State) → (List ℕ → State → State) → (State → State) → State → Ended State

module _ (L : Library) where
  -- the globals `mysql_pool` and `url`, the state of the library, and what was printed
  pub record Database : Type 0 where
    pub mysql_pool : ℕ
    pub url : ℕ
    pub library : L.State

  -- `create_mysqlpool`, given MYSQL_URL_STR
  unfoldable pub create_mysqlpool : List ℕ → L.State → Bool × Database
  create_mysqlpool url_str s =
      let (url, s1) = L.url_new url_str s in
      let (pool, s2) = L.pool_new url s1 in
      (true, record { mysql_pool = pool; url = url; library = L.pool_start pool s2 })

  -- `destroy_mysqlpool`
  unfoldable pub destroy_mysqlpool : Database → L.State
  destroy_mysqlpool d = L.url_free d.url (L.pool_free d.mysql_pool d.library)

  -- `do_mysql_process`, with `print` for its `printf`
  unfoldable pub do_mysql_process : (List ℕ → L.State → L.State) → List ℕ → Database → Ended L.State
  do_mysql_process print buf d =
      let (connect, s) = L.get_connection d.mysql_pool d.library in
      L.attempt (L.execute connect buf) print (L.close connect) s
