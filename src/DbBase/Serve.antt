-- ===== src/DbBase/Serve.antt =====
-- DbBase.cpp: the operations of a pool that has been set up.
use functions.Base.{
  ◌≢◌, refl, sym, ◌∙◌, Bool, true, false, List, [], ◌∷◌, Option, none, some, arith, length,
  if◌then◌else◌,
}
use functions.Hiredis.{Hiredis, Dependable}
use functions.RedisCtx.{Redis, M}
use functions.RedisCtx.Commands.{
  operation, operation_cmd, append_cmd, commit, query_debug, del_pattern_keys,
  del_pattern_keys_except,
}
use functions.RedisCtx.Commands.Reconnect.{Ensures, Ensures-map, IsValid}
use functions.RedisCtx.Commands.Valid.{
  Safe, operation_safe, operation_cmd_safe, query_debug_safe, del_pattern_keys_safe,
  del_pattern_keys_except_safe, append_cmd_safe, commit_safe,
}
use functions.DbBase.{
  Db, D, at_each, chk_pattern, db_operation, db_operation_cmd, db_append_cmd, db_commit_key,
  db_query_debug, db_commit, db_del_pattern_keys, db_del_pattern_keys_except, DbCall, operates,
  appends, operates_cmd, queries, commits_key, commits, deletes, deletes_except, forget, db_call,
  db_run,
}
use functions.DbBase.Valid.{IsValidDb, Kept, at_key-Kept, at_each-Kept}

module _ (h : Hiredis) where
  open h use {World, Context, Args, Reply}

  forget-Kept :
      {A : Type 0} (m : D h A) (d : Db h) (w : World)
      → Ensures (Kept h d) (m d w)
      → Ensures (Kept h d) (forget h m d w)
  forget-Kept {A} m d w b = go (m d w) b
    where
      go :
          (o : Option (A × Db h × World))
          → Ensures (Kept h d) o
          → Ensures (Kept h d) (elim o [ none ↦ none | some (a, d', w') ↦ some (tt {0}, d', w') ])
      go none b = b
      go (some (a, d', w')) b = b

  each-Kept :
      {A : Type 0} (m : M Context World A) (ok : Bool) (d : Db h) (w : World)
      → IsValidDb h d
      → ((c : Redis Context) → IsValid c → (w : World) → Safe h m c w)
      → Ensures (Kept h d) (if ok then at_each h (length d.vec) 0 m d w else some (tt, d, w))
  each-Kept m true d w v safe = at_each-Kept h (length d.vec) 0 m d w v (omega arith) safe
  each-Kept m false d w v safe = (v, refl, refl)

  pub db_call-Kept :
      (dep : Dependable h) (k : DbCall Args) (d : Db h) (w : World)
      → IsValidDb h d
      → d.nodes ≢ []
      → Ensures (Kept h d) (db_call h k d w)
  unfolding db_call db_operation db_operation_cmd db_append_cmd db_commit_key db_query_debug
      db_commit db_del_pattern_keys db_del_pattern_keys_except
  db_call-Kept dep (operates key a) d w v ne =
      forget-Kept (db_operation h key a) d w
        (at_key-Kept h key (operation h a) d w v ne (λ c cv w'. operation_safe h a c w' cv))
  db_call-Kept dep (appends key a) d w v ne =
      forget-Kept (db_append_cmd h key a) d w
        (at_key-Kept h key (append_cmd h a) d w v ne (λ c cv w'. append_cmd_safe h dep a c w' cv))
  db_call-Kept dep (operates_cmd key cmd) d w v ne = forget-Kept (db_operation_cmd h key cmd) d w (
      at_key-Kept h key (operation_cmd h cmd) d w v ne
        (λ c cv w'. operation_cmd_safe h cmd c w' cv))
  db_call-Kept dep (queries key cmd) d w v ne =
      forget-Kept (db_query_debug h key cmd) d w
        (at_key-Kept h key (query_debug h cmd) d w v ne (λ c cv w'. query_debug_safe h cmd c w' cv))
  db_call-Kept dep (commits_key key) d w v ne =
      forget-Kept (db_commit_key h key) d w
        (at_key-Kept h key (commit h) d w v ne (λ c cv w'. commit_safe h dep c w' cv))
  db_call-Kept dep commits d w v ne =
      each-Kept (commit h) true d w v (λ c cv w'. commit_safe h dep c w' cv)
  db_call-Kept dep (deletes p) d w v ne =
      each-Kept (del_pattern_keys h p) (chk_pattern p) d w v
        (λ c cv w'. del_pattern_keys_safe h dep p c w' cv)
  db_call-Kept dep (deletes_except p e) d w v ne =
      each-Kept (del_pattern_keys_except h p e) (chk_pattern p) d w v
        (λ c cv w'. del_pattern_keys_except_safe h dep p e c w' cv)

  -- Where the array for `KEYS` has only strings and `malloc` has memory for the replies, any sequence of
  -- operations on a valid pool whose ring has a node runs to its end with no fault: no read past the ring,
  -- no NULL context, no NULL string. The pool stays valid, with the same ring and as many
  -- connections.
  pub db_run-Kept :
      (dep : Dependable h) (ks : List (DbCall Args)) (d : Db h) (w : World)
      → IsValidDb h d
      → d.nodes ≢ []
      → Ensures (Kept h d) (db_run h ks d w)
  unfolding db_run
  db_run-Kept dep [] d w v ne = (v, refl, refl)
  db_run-Kept dep (k ∷ ks) d w v ne =
      go (db_call h k d w) (db_call-Kept dep k d w v ne)
        (λ d' w' v' ne'. db_run-Kept dep ks d' w' v' ne')
    where
      go :
          (o : Option (Unit {0} × Db h × World))
          → Ensures (Kept h d) o
          → ((d' : Db h) (w' : World)
              → IsValidDb h d'
              → d'.nodes ≢ []
              → Ensures (Kept h d') (db_run h ks d' w'))
          → Ensures (Kept h d) (elim o [ none ↦ none | some (a, d', w') ↦ db_run h ks d' w' ])
      go none b rest = b
      go (some (a, d', w')) b rest =
          Ensures-map (Kept h d') (Kept h d) (db_run h ks d' w')
            (λ r k. (k.0, k.1 ∙ b.1, k.2 ∙ b.2)) (rest d' w' b.0 (λ e. ne (sym b.1 ∙ e)))
