-- ===== src/DbConn.antt =====
-- redis-pool/src/DbConn.h and DbConn.cpp: `DbPool`, which reads through one pool of connections and
-- writes through another, and `DbRead` and `DbWrite`, which have one pool each.
pub mod Sessions
mod Tests
use functions.Base.{ℕ, Bool, true, false, List, [], ◌∷◌, Option, none, some}
use functions.Hiredis.{Hiredis}
use functions.RedisConf.{HostInfo}
use functions.DbBase
use functions.DbBase.{
  Db, D, new_db, db_operation, db_operation_cmd, db_append_cmd, db_commit_key, db_commit,
  db_query_debug, db_del_pattern_keys, db_del_pattern_keys_except,
}

-- What `getConf` gives: `none` where the file could not be parsed.
abbrev pub Conf : Type 0
Conf = Option (List ℕ × List HostInfo)

module _ (h : Hiredis) where
  open h use {World, Args, Reply}

  pub record DbPool : Type 0 where
    pub write : Db h
    pub read : Db h

  unfoldable pub new_pool : DbPool
  new_pool = record { write = new_db h; read = new_db h }

  -- A step on the pair: a fault, or its result, the pair and the world.
  abbrev pub P : Type 0 → Type 0
  P A = DbPool → World → Option (A × DbPool × World)

  -- `m_read->...` and `m_write->...`
  abbrev pub on_read : {A : Type 0} → D h A → P A
  on_read m d w = elim (m d.read w) [
    | none ↦ none
    | some (a, b, w') ↦ some (a, record d { read = b }, w')
  ]

  abbrev pub on_write : {A : Type 0} → D h A → P A
  on_write m d w = elim (m d.write w) [
    | none ↦ none
    | some (a, b, w') ↦ some (a, record d { write = b }, w')
  ]

  -- `DbPool::init`: the file is read once for each pool.
  unfoldable pub pool_init : Conf → Conf → P Bool
  pool_init for_read for_write d w = elim (on_read (DbBase.init h for_read) d w) [
    | none ↦ none
    | some (false, d', w') ↦ some (false, d', w')
    | some (true, d', w') ↦ on_write (DbBase.init h for_write) d' w'
  ]

  unfoldable pub pool_operation : List ℕ → Args → P (Option Reply)
  pool_operation key args = on_read (db_operation h key args)

  unfoldable pub pool_query_debug : List ℕ → List ℕ → P Bool
  pool_query_debug key cmd = on_read (db_query_debug h key cmd)

  unfoldable pub pool_del_pattern_keys_except : List ℕ → List ℕ → P (Unit {0})
  pool_del_pattern_keys_except pattern except =
      on_read (db_del_pattern_keys_except h pattern except)

  unfoldable pub pool_del_pattern_keys : List ℕ → P (Unit {0})
  pool_del_pattern_keys pattern = on_read (db_del_pattern_keys h pattern)

  unfoldable pub pool_append_cmd : List ℕ → Args → P Bool
  pool_append_cmd key args = on_write (db_append_cmd h key args)

  unfoldable pub pool_commit_key : List ℕ → P Bool
  pool_commit_key key = on_write (db_commit_key h key)

  unfoldable pub pool_commit : P (Unit {0})
  pool_commit = on_write (db_commit h)

  -- `DbRead` and `DbWrite` are their `m_base`.
  abbrev pub DbRead : Type 0
  DbRead = Db h

  abbrev pub DbWrite : Type 0
  DbWrite = Db h

  unfoldable pub read_init : Conf → D h Bool
  read_init conf = DbBase.init h conf

  unfoldable pub read_operation : List ℕ → Args → D h (Option Reply)
  read_operation key args = db_operation h key args

  unfoldable pub read_operation_cmd : List ℕ → List ℕ → D h (Option Reply)
  read_operation_cmd key cmd = db_operation_cmd h key cmd

  unfoldable pub read_query_debug : List ℕ → List ℕ → D h Bool
  read_query_debug key cmd = db_query_debug h key cmd

  unfoldable pub write_init : Conf → D h Bool
  write_init conf = DbBase.init h conf

  unfoldable pub write_append_cmd : List ℕ → Args → D h Bool
  write_append_cmd key args = db_append_cmd h key args

  unfoldable pub write_commit_key : List ℕ → D h Bool
  write_commit_key key = db_commit_key h key

  unfoldable pub write_commit : D h (Unit {0})
  write_commit = db_commit h

-- A call of a public method of `DbPool`.
pub data PoolCall (Args : Type 0) : Type 0 where
  reads writes : List ℕ → Args → PoolCall Args
  debugs : List ℕ → List ℕ → PoolCall Args
  removes : List ℕ → PoolCall Args
  removes_except : List ℕ → List ℕ → PoolCall Args
  flushes : List ℕ → PoolCall Args
  flushes_all : PoolCall Args

module _ (h : Hiredis) where
  open h use {World, Args}

  abbrev pub drop_result : {A : Type 0} → P h A → P h (Unit {0})
  drop_result m d w = elim (m d w) [ none ↦ none | some (a, d', w') ↦ some (tt, d', w') ]

  unfoldable pub pool_call : PoolCall Args → P h (Unit {0})
  pool_call (reads key a) d w = drop_result (pool_operation h key a) d w
  pool_call (writes key a) d w = drop_result (pool_append_cmd h key a) d w
  pool_call (debugs key cmd) d w = drop_result (pool_query_debug h key cmd) d w
  pool_call (removes pattern) d w = pool_del_pattern_keys h pattern d w
  pool_call (removes_except pattern except) d w = pool_del_pattern_keys_except h pattern except d w
  pool_call (flushes key) d w = drop_result (pool_commit_key h key) d w
  pool_call flushes_all d w = pool_commit h d w

  unfoldable pub pool_run : List (PoolCall Args) → P h (Unit {0})
  pool_run [] d w = some (tt, d, w)
  pool_run (k ∷ ks) d w = elim (pool_call k d w) [
    | none ↦ none
    | some (a, d', w') ↦ pool_run ks d' w'
  ]

  -- A program's use of the pool: `init`, and the calls if it returned true.
  unfoldable pub session :
      Conf → Conf → List (PoolCall Args) → World → Option (Bool × DbPool h × World)
  session for_read for_write ks w = elim (pool_init h for_read for_write (new_pool h) w) [
    | none ↦ none
    | some (false, d, w') ↦ some (false, d, w')
    | some (true, d, w') ↦ elim (pool_run ks d w') [
      | none ↦ none
      | some (a, d', w'') ↦ some (true, d', w'')
    ]
  ]
