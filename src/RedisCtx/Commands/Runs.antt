-- ===== src/RedisCtx/Commands/Runs.antt =====
-- _RedisHeader.cpp: sequences of calls on one `RedisCtx`, from its constructor on.
use functions.Base.{ℕ, ◌≡◌, refl, List, [], ◌∷◌, none, arith}
use functions.Hiredis.{Hiredis, Dependable}
use functions.RedisCtx.{
  Redis, M, new_redis, set_timeout, set_host, set_auth_passwd, db_conn_timeout, ◌>>=◌, pure, reconn,
}
use functions.RedisCtx.Commands.{
  Call, reconnects, commits, operates, appends, operates_cmd, queries, deletes, deletes_except,
  call, run, operation, operation_cmd, append_cmd, commit, query_debug, del_pattern_keys,
  del_pattern_keys_except,
}
use functions.RedisCtx.Commands.Reconnect.{
  Ensures, bind_rule, IsValid, IsFresh, IsFresh-IsValid, reconn-IsFresh,
}
use functions.RedisCtx.Commands.Valid.{
  Safe, operation_safe, operation_cmd_safe, query_debug_safe, del_pattern_keys_safe,
  del_pattern_keys_except_safe, append_cmd_safe, commit_safe,
}

-- The object as `DbBase::add` sets it up.
unfoldable pub configured : {C : Type 0} → List ℕ → ℕ → ℕ → List ℕ → Redis C
unfolding new_redis set_timeout set_host set_auth_passwd
configured ip port index passwd =
    set_auth_passwd passwd (set_host ip port index (set_timeout db_conn_timeout new_redis))

configured-IsValid :
    {C : Type 0} (ip : List ℕ) (port index : ℕ) (passwd : List ℕ)
    → IsValid {C = C} (configured ip port index passwd)
unfolding configured
configured-IsValid ip port index passwd = ground arith

pub configured_ctx :
    {C : Type 0} (ip : List ℕ) (port index : ℕ) (passwd : List ℕ)
    → (configured {C = C} ip port index passwd).ctx ≡ none
unfolding configured
configured_ctx ip port index passwd = refl

module _ (h : Hiredis) where
  open h use {World, Context, Args, Reply}

  forget :
      {A : Type 0} (m : M Context World A) (c : Redis Context) (w : World)
      → Safe h m c w
      → Safe h (m >>= λ _. pure {A = Unit {0}} tt) c w
  forget m c w s =
      bind_rule (λ r. IsValid r.1) (λ r. IsValid r.1) m (λ _. pure tt) c w s λ _ c' w' v. v

  call_safe :
      (dep : Dependable h) (k : Call Args) (c : Redis Context) (w : World)
      → IsValid c
      → Safe h (call h k) c w
  unfolding call
  call_safe dep reconnects c w v =
      bind_rule (λ r. IsFresh r.0 r.1) (λ r. IsValid r.1) (reconn h) (λ _. pure tt) c w
        (reconn-IsFresh h c w) λ _ c' w' p. IsFresh-IsValid p
  call_safe dep commits c w v = forget (commit h) c w (commit_safe h dep c w v)
  call_safe dep (operates a) c w v = forget (operation h a) c w (operation_safe h a c w v)
  call_safe dep (appends a) c w v = forget (append_cmd h a) c w (append_cmd_safe h dep a c w v)
  call_safe dep (operates_cmd cmd) c w v =
      forget (operation_cmd h cmd) c w (operation_cmd_safe h cmd c w v)
  call_safe dep (queries cmd) c w v = forget (query_debug h cmd) c w (query_debug_safe h cmd c w v)
  call_safe dep (deletes p) c w v =
      forget (del_pattern_keys h p) c w (del_pattern_keys_safe h dep p c w v)
  call_safe dep (deletes_except p e) c w v =
      forget (del_pattern_keys_except h p e) c w (del_pattern_keys_except_safe h dep p e c w v)

  run_safe :
      (dep : Dependable h) (ks : List (Call Args)) (c : Redis Context) (w : World)
      → IsValid c
      → Safe h (run h ks) c w
  unfolding run
  run_safe dep [] c w v = v
  run_safe dep (k ∷ ks) c w v =
      bind_rule (λ r. IsValid r.1) (λ r. IsValid r.1) (call h k) (λ _. run h ks) c w
        (call_safe dep k c w v) λ _ c' w' v'. run_safe dep ks c' w' v'

  -- From the constructor on, whatever the host, the calls and the answers of hiredis, but that the array
  -- for `KEYS` has only strings and `malloc` has memory for the replies, no call reads a NULL context or a
  -- NULL string; the object ends consistent: a context that it holds is ready, and fewer than 5000
  -- commands wait in its pipeline, none if it holds no context.
  pub run-IsValid :
      (dep : Dependable h) (ip : List ℕ) (port index : ℕ) (passwd : List ℕ) (ks : List (Call Args))
      (w : World)
      → Ensures (λ r. IsValid r.1) (run h ks (configured ip port index passwd) w)
  run-IsValid dep ip port index passwd ks w =
      run_safe dep ks _ w (configured-IsValid ip port index passwd)
