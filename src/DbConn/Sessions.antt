-- ===== src/DbConn/Sessions.antt =====
-- DbConn.cpp: a program that sets up the two pools and then uses them.
use functions.Base.{◌≡◌, ◌≢◌, refl, sym, ◌∙◌, Bool, true, false, List, [], ◌∷◌, Option, none, some}
use functions.Hiredis.{Hiredis, Dependable}
use functions.RedisCtx.Commands.Reconnect.{Ensures}
use functions.DbBase
use functions.DbBase.{
  Db, D, db_operation, db_append_cmd, db_query_debug, db_del_pattern_keys,
  db_del_pattern_keys_except, db_commit_key, db_commit, new_db, db_call, forget, operates, appends,
  queries, commits_key, commits, deletes, deletes_except,
}
use functions.DbBase.Valid.{IsValidDb, Kept}
use functions.DbBase.Serve.{db_call-Kept}
use functions.DbBase.Start.{Started, init-Started}
use functions.DbConn.{
  Conf, DbPool, new_pool, P, on_read, on_write, pool_init, pool_operation, pool_query_debug,
  pool_del_pattern_keys, pool_del_pattern_keys_except, pool_append_cmd, pool_commit_key,
  pool_commit, PoolCall, reads, writes, debugs, removes, removes_except, flushes, flushes_all,
  drop_result, pool_call, pool_run, session,
}

module _ (h : Hiredis) where
  open h use {World, Args}

  -- A pool that answers: it is valid, and its ring has a node.
  abbrev pub Answers : Db h → Type 0
  Answers d = IsValidDb h d × (d.nodes ≢ [])

  abbrev pub BothAnswer : DbPool h → Type 0
  BothAnswer d = Answers d.read × Answers d.write

  abbrev Answering : {A : Type 0} → A × DbPool h × World → Type 0
  Answering r = BothAnswer r.1

  abbrev pub BothValid : DbPool h → Type 0
  BothValid d = IsValidDb h d.read × IsValidDb h d.write

  unforget :
      {A : Type 0} (m : D h A) (d : Db h) (w : World)
      → Ensures (Kept h d) (forget h m d w)
      → Ensures (Kept h d) (m d w)
  unforget {A} m d w = go (m d w)
    where
      go :
          (o : Option (A × Db h × World))
          → Ensures (Kept h d) (elim o [ none ↦ none | some (a, d', w') ↦ some (tt {0}, d', w') ])
          → Ensures (Kept h d) o
      go none b = b
      go (some (a, d', w')) b = b

  Kept-Answers :
      {A : Type 0} (d : Db h) (r : A × Db h × World) → d.nodes ≢ [] → Kept h d r → Answers r.1
  Kept-Answers d r ne k = (k.0, λ e. ne (sym k.1 ∙ e))

  on_read-BothAnswer :
      {A : Type 0} (m : D h A) (d : DbPool h) (w : World)
      → BothAnswer d
      → Ensures (Kept h d.read) (m d.read w)
      → Ensures Answering (on_read h m d w)
  on_read-BothAnswer {A} m d w a = go (m d.read w)
    where
      go :
          (o : Option (A × Db h × World))
          → Ensures (Kept h d.read) o
          → Ensures Answering
              (elim o [ none ↦ none | some (x, b, w') ↦ some (x, record d { read = b }, w') ])
      go none b = b
      go (some r) k = (Kept-Answers d.read r a.0.1 k, a.1)

  on_write-BothAnswer :
      {A : Type 0} (m : D h A) (d : DbPool h) (w : World)
      → BothAnswer d
      → Ensures (Kept h d.write) (m d.write w)
      → Ensures Answering (on_write h m d w)
  on_write-BothAnswer {A} m d w a = go (m d.write w)
    where
      go :
          (o : Option (A × Db h × World))
          → Ensures (Kept h d.write) o
          → Ensures Answering
              (elim o [ none ↦ none | some (x, b, w') ↦ some (x, record d { write = b }, w') ])
      go none b = b
      go (some r) k = (a.0, Kept-Answers d.write r a.1.1 k)

  drop_result-BothAnswer :
      {A : Type 0} (m : P h A) (d : DbPool h) (w : World)
      → Ensures Answering (m d w)
      → Ensures Answering (drop_result h m d w)
  drop_result-BothAnswer {A} m d w = go (m d w)
    where
      go :
          (o : Option (A × DbPool h × World))
          → Ensures Answering o
          → Ensures Answering (elim o [ none ↦ none | some (a, d', w') ↦ some (tt {0}, d', w') ])
      go none b = b
      go (some r) b = b

  pool_call-BothAnswer :
      (dep : Dependable h) (k : PoolCall Args) (d : DbPool h) (w : World)
      → BothAnswer d
      → Ensures Answering (pool_call h k d w)
  unfolding pool_call pool_operation pool_query_debug pool_del_pattern_keys
      pool_del_pattern_keys_except pool_append_cmd pool_commit_key pool_commit db_call
  pool_call-BothAnswer dep (reads key a) d w v =
      drop_result-BothAnswer (pool_operation h key a) d w (
        on_read-BothAnswer (db_operation h key a) d w v (
          unforget (db_operation h key a) d.read w
            (db_call-Kept h dep (operates key a) d.read w v.0.0 v.0.1)))
  pool_call-BothAnswer dep (writes key a) d w v =
      drop_result-BothAnswer (pool_append_cmd h key a) d w (
        on_write-BothAnswer (db_append_cmd h key a) d w v (
          unforget (db_append_cmd h key a) d.write w
            (db_call-Kept h dep (appends key a) d.write w v.1.0 v.1.1)))
  pool_call-BothAnswer dep (debugs key cmd) d w v =
      drop_result-BothAnswer (pool_query_debug h key cmd) d w (
        on_read-BothAnswer (db_query_debug h key cmd) d w v (
          unforget (db_query_debug h key cmd) d.read w
            (db_call-Kept h dep (queries key cmd) d.read w v.0.0 v.0.1)))
  pool_call-BothAnswer dep (removes pattern) d w v =
      on_read-BothAnswer (db_del_pattern_keys h pattern) d w v
        (db_call-Kept h dep (deletes pattern) d.read w v.0.0 v.0.1)
  pool_call-BothAnswer dep (removes_except pattern except) d w v =
      on_read-BothAnswer (db_del_pattern_keys_except h pattern except) d w v
        (db_call-Kept h dep (deletes_except pattern except) d.read w v.0.0 v.0.1)
  pool_call-BothAnswer dep (flushes key) d w v =
      drop_result-BothAnswer (pool_commit_key h key) d w (
        on_write-BothAnswer (db_commit_key h key) d w v (
          unforget (db_commit_key h key) d.write w
            (db_call-Kept h dep (commits_key key) d.write w v.1.0 v.1.1)))
  pool_call-BothAnswer dep flushes_all d w v =
      on_write-BothAnswer (db_commit h) d w v (db_call-Kept h dep commits d.write w v.1.0 v.1.1)

  pool_run-BothAnswer :
      (dep : Dependable h) (ks : List (PoolCall Args)) (d : DbPool h) (w : World)
      → BothAnswer d
      → Ensures Answering (pool_run h ks d w)
  unfolding pool_run
  pool_run-BothAnswer dep [] d w v = v
  pool_run-BothAnswer dep (k ∷ ks) d w v =
      go (pool_call h k d w) (pool_call-BothAnswer dep k d w v)
        (λ d' w' v'. pool_run-BothAnswer dep ks d' w' v')
    where
      go :
          (o : Option (Unit {0} × DbPool h × World))
          → Ensures Answering o
          → ((d' : DbPool h) (w' : World) → BothAnswer d' → Ensures Answering (pool_run h ks d' w'))
          → Ensures Answering (elim o [ none ↦ none | some (a, d', w') ↦ pool_run h ks d' w' ])
      go none b rest = b
      go (some (a, d', w')) b rest = rest d' w' b

  -- Both pools are valid, and answer if the setup succeeded.
  abbrev pub PoolStarted : Bool × DbPool h × World → Type 0
  PoolStarted r = BothValid r.1 × (r.0 ≡ true → BothAnswer r.1)

  new_db-IsValidDb : IsValidDb h (new_db h)
  unfolding new_db
  new_db-IsValidDb = record { linked = record { ring = tt; inside = tt }; valid = tt }

  pool_init-PoolStarted :
      (for_read for_write : Conf) (w : World)
      → Ensures PoolStarted (pool_init h for_read for_write (new_pool h) w)
  unfolding pool_init new_pool
  pool_init-PoolStarted for_read for_write w =
      go (DbBase.init h for_read (new_db h) w) (init-Started h for_read w)
    where
      second :
          (b : Db h)
          → Answers b
          → (o : Option (Bool × Db h × World)) → Ensures (Started h) o
          → Ensures PoolStarted (elim o [
            | none ↦ none
            | some (x, b', w') ↦ some (x, record { write = b'; read = b }, w')
          ])
      second b a none s = s
      second b a (some (x, b', w')) s = ((a.0, s.0), λ e. (a, (s.0, s.1 e)))

      go :
          (o : Option (Bool × Db h × World))
          → Ensures (Started h) o
          → Ensures PoolStarted
              (elim (elim o as (λ _. Option (Bool × DbPool h × World)) [
                | none ↦ none
                | some (a, b, w') ↦ some (a, record { write = new_db h; read = b }, w')
              ]) [
                | none ↦ none
                | some (false, d', w') ↦ some (false, d', w')
                | some (true, d', w') ↦ on_write h (DbBase.init h for_write) d' w'
              ])
      go none s = s
      go (some (false, b, w')) s = ((s.0, new_db-IsValidDb), λ e. cc)
      go (some (true, b, w')) s =
          second b (s.0, s.1 refl) (DbBase.init h for_write (new_db h) w')
            (init-Started h for_write w')

  -- A program that sets up the pool and, if `init` returned true, makes any calls of its methods, runs to
  -- its end with no fault, whatever the two readings of the file, the calls and the answers of the servers,
  -- but that the array for `KEYS` has only strings and `malloc` has memory for the replies. Both pools are valid after it, and the rings of both have a node if `init` returned true.
  pub session-PoolStarted :
      (dep : Dependable h) (for_read for_write : Conf) (ks : List (PoolCall Args)) (w : World)
      → Ensures PoolStarted (session h for_read for_write ks w)
  unfolding session
  session-PoolStarted dep for_read for_write ks w =
      go (pool_init h for_read for_write (new_pool h) w)
        (pool_init-PoolStarted for_read for_write w)
    where
      after :
          (o : Option (Unit {0} × DbPool h × World))
          → Ensures Answering o
          → Ensures PoolStarted (elim o [ none ↦ none | some (a, d', w') ↦ some (true, d', w') ])
      after none b = b
      after (some (a, d', w')) b = ((b.0.0, b.1.0), λ e. b)

      go :
          (o : Option (Bool × DbPool h × World))
          → Ensures PoolStarted o
          → Ensures PoolStarted (elim o [
            | none ↦ none
            | some (false, d, w') ↦ some (false, d, w')
            | some (true, d, w') ↦ elim (pool_run h ks d w') [
              | none ↦ none
              | some (a, d', w'') ↦ some (true, d', w'')
            ]
          ])
      go none s = s
      go (some (false, d, w')) s = s
      go (some (true, d, w')) s =
          after (pool_run h ks d w') (pool_run-BothAnswer dep ks d w' (s.1 refl))
