-- ===== src/RedisCtx/Commands/Leaks.antt =====
-- _RedisHeader.cpp: every context that `RedisCtx` opens is freed, but for the one that it holds.
pub mod Calls
use functions.Base.{
  ℕ, zero, suc, ◌+◌, ◌≡◌, refl, Bool, true, false, List, [], ◌∷◌, ◌++◌, Option, none, some, arith,
  Bool-cases, inl, inr, Option-cases,
}
use functions.Printf.{bytes, decimal, snprintf}
use functions.Hiredis.{Hiredis, CountsContexts}
use functions.RedisCtx.{
  Redis, ctx_ok, ctx_close, M, ◌>>=◌, ◌>>◌, pure, on_ctx, close, execute, settle, select_db,
  auth_db, log_in, check_ctx, conn, reconn, chk_valid, free_ctx,
}
use functions.RedisCtx.Commands.{
  Call, reconnects, commits, operates, appends, operates_cmd, queries, deletes, deletes_except,
  call, run, when_valid, or_reconn, reply_or_reconn, operation, operation_cmd, get_pattern_keys,
  del_keys, find_and_delete, del_pattern_keys, del_pattern_keys_except, query_debug, read_replies,
  get_replies, append_v, append_cmd, commit, reset_app_cnt, count_append,
}

-- How many contexts the object holds.
abbrev pub held : {C : Type 0} → Redis C → ℕ
held c = elim c.ctx [ none ↦ 0 | some x ↦ 1 ]

module _ (h : Hiredis) (k : CountsContexts h) where
  open h use {World, Context, Reply, Args}
  open k use {
    opened, freed, connect_none, connect_some, free_one, command_none, command_arg_none,
    vcommand_none, vappend_command_none, get_reply_none,
  }

  -- The contexts that the run opened and did not free are those that the object came to hold.
  abbrev pub Balanced :
      {A : Type 0} → Redis Context → World → Option (A × Redis Context × World) → Type 0
  Balanced c w none = Unit {0}
  Balanced c w (some r) = opened r.2 + freed w + held c ≡ opened w + freed r.2 + held r.1

  -- A method that balances wherever it starts.
  abbrev pub Balances : {A : Type 0} → M Context World A → Type 0
  Balances m = (c : Redis Context) (w : World) → Balanced c w (m c w)

  then-Balanced :
      {A : Type 0} (c c' : Redis Context) (w w' : World) (o : Option (A × Redis Context × World))
      → opened w' + freed w + held c ≡ opened w + freed w' + held c'
      → Balanced c' w' o
      → Balanced c w o
  then-Balanced c c' w w' none e b = tt
  then-Balanced c c' w w' (some r) e b = omega arith

  pub bind-Balances :
      {A B : Type 0} (m : M Context World A) (f : A → M Context World B)
      → Balances m
      → ((a : A) → Balances (f a))
      → Balances (m >>= f)
  bind-Balances {A} {B} m f bm bf c w = go (m c w) (bm c w)
    where
      go :
          (o : Option (A × Redis Context × World))
          → Balanced c w o
          → Balanced c w (elim o [ none ↦ none | some (a, c', w') ↦ f a c' w' ])
      go none e = tt
      go (some (a, c', w')) e = then-Balanced c c' w w' (f a c' w') e (bf a c' w')

  close-Balances : Balances (close h)
  unfolding close
  close-Balances c w = elim (Option-cases c.ctx) [
    | inl e ↦ ground arith
    | inr (x, e) ↦ ground (arith, free_one x w)
  ]

  pub execute-Balances : (cmd : List ℕ) → Balances (execute h cmd)
  unfolding execute
  execute-Balances cmd c w = elim (Option-cases c.ctx) [
    | inl e ↦ ground arith
    | inr (x, e) ↦ ground (arith, command_none x cmd w)
  ]

  pub pure-Balances : {A : Type 0} (a : A) → Balances (pure {C = Context} {W = World} a)
  pure-Balances a c w = refl

  settle-Balances : (b : Bool) → Balances (settle h b)
  unfolding settle
  settle-Balances true c w = refl
  settle-Balances false c w =
      bind-Balances (close h) (λ _. pure false) close-Balances (λ _. pure-Balances false) c w

  login-Balances : (cmd : List ℕ) → Balances (execute h cmd >>= settle h)
  login-Balances cmd =
      bind-Balances (execute h cmd) (settle h) (execute-Balances cmd) settle-Balances

  select_db-Balances : Balances (select_db h)
  unfolding select_db
  select_db-Balances c w = login-Balances _ c w

  auth_db_balances :
      (p : List ℕ) (c : Redis Context) (w : World) → c.passwd ≡ p → Balanced c w (auth_db h c w)
  unfolding auth_db
  auth_db_balances [] c w e = rw (e, auth_db) refl
  auth_db_balances (b ∷ bs) c w e = rw (e, auth_db) (login-Balances _ c w)

  log_in-Balances : Balances (log_in h)
  unfolding log_in
  log_in-Balances c w =
      bind-Balances (auth_db h) _ (λ c' w'. auth_db_balances c'.passwd c' w' refl) then_select
        (record c { status = ctx_ok }) w
    where
      then_select :
          (b : Bool)
          → Balances
              (elim b as (λ _. M Context World Bool) [ true ↦ select_db h | false ↦ pure false ])
      then_select true = select_db-Balances
      then_select false = pure-Balances false

  refuse-Balances : Balances (close h >> pure false)
  refuse-Balances =
      bind-Balances (close h) (λ _. pure false) close-Balances (λ _. pure-Balances false)

  check_ctx-Balances : (o : Option Context) → Balances (check_ctx h o)
  unfolding check_ctx
  check_ctx-Balances none c w = refuse-Balances c w
  check_ctx-Balances (some x) c w = elim (Bool-cases (h.has_err x w)) [
    | inl t ↦ rw (t, check_ctx) (refuse-Balances c w)
    | inr f ↦ rw (f, check_ctx) (log_in-Balances c w)
  ]

  -- `conn` starts with no context.
  conn_balances : (c : Redis Context) (w : World) → c.ctx ≡ none → Balanced c w (conn h c w)
  unfolding conn
  conn_balances c w e = go (h.connect c.ip c.port c.timeout w) refl
    where
      go :
          (r : Option Context × World)
          → h.connect c.ip c.port c.timeout w ≡ r
          → Balanced c w (check_ctx h r.0 (record c { ctx = r.0 }) r.1)
      go (none, w') q =
          then-Balanced c (record c { ctx = none }) w w'
            (check_ctx h none (record c { ctx = none }) w')
            (ground (arith, connect_none c.ip c.port c.timeout w w' q))
            (check_ctx-Balances none _ w')
      go (some x, w') q =
          then-Balanced c (record c { ctx = some x }) w w'
            (check_ctx h (some x) (record c { ctx = some x }) w')
            (ground (arith, connect_some c.ip c.port c.timeout w w' x q))
            (check_ctx-Balances (some x) _ w')

  pub reconn-Balances : Balances (reconn h)
  unfolding reconn close
  reconn-Balances c w =
      then-Balanced c closed w (free_ctx h c.ctx w) (conn h closed (free_ctx h c.ctx w))
        (close-Balances c w) (conn_balances closed (free_ctx h c.ctx w) refl)
    where
      closed : Redis Context
      closed = record c { ctx = none; status = ctx_close; app_cnt = 0 }
