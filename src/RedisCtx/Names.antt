-- ===== src/RedisCtx/Names.antt =====
-- _RedisHeader.cpp: reconnecting leaves the host and the index of a `RedisCtx` alone.
use functions.Base.{
  ℕ, ◌≡◌, refl, ◌∙◌, Bool, true, false, List, [], ◌∷◌, Option, none, some, Bool-cases, Option-cases,
  inl, inr,
}
use functions.Hiredis.{Hiredis}
use functions.RedisCtx.{
  Redis, M, gen_key, max_redis_db_cnt, ◌>>=◌, ◌>>◌, pure, on_ctx, set_status, ctx_ok, close,
  execute, settle, select_db, auth_db, log_in, check_ctx, conn, reconn,
}

-- The name that `DbDebug` gives to the host and the index.
abbrev pub named : {C : Type 0} → Redis C → List ℕ
named c = gen_key c.ip c.port c.index max_redis_db_cnt

-- What holds of the result, if there is one.
abbrev pub Whenever : {R : Type 0} → (R → Type 0) → Option R → Type 0
Whenever P none = Unit {0}
Whenever P (some r) = P r

module _ (h : Hiredis) where
  open h use {World, Context}

  -- The method changes no name.
  abbrev pub KeepsName : {A : Type 0} → M Context World A → Type 0
  KeepsName m = (c : Redis Context) (w : World) → Whenever (λ r. named r.1 ≡ named c) (m c w)

  bind-KeepsName :
      {A B : Type 0} (m : M Context World A) (f : A → M Context World B)
      → KeepsName m
      → ((a : A) → KeepsName (f a))
      → KeepsName (m >>= f)
  bind-KeepsName {A} {B} m f km kf c w = go (m c w) (km c w)
    where
      after :
          (c' : Redis Context) (o : Option (B × Redis Context × World))
          → named c' ≡ named c
          → Whenever (λ r. named r.1 ≡ named c') o
          → Whenever (λ r. named r.1 ≡ named c) o
      after c' none e k = tt
      after c' (some r) e k = k ∙ e

      go :
          (o : Option (A × Redis Context × World))
          → Whenever (λ r. named r.1 ≡ named c) o
          → Whenever
              (λ r. named r.1 ≡ named c)
              (elim o [ none ↦ none | some (a, c', w') ↦ f a c' w' ])
      go none k = tt
      go (some (a, c', w')) k = after c' (f a c' w') k (kf a c' w')

  pure-KeepsName : {A : Type 0} (a : A) → KeepsName (pure a)
  pure-KeepsName a c w = refl

  close-KeepsName : KeepsName (close h)
  unfolding close
  close-KeepsName c w = refl

  on_ctx-KeepsName : {A : Type 0} (f : Context → World → A × World) → KeepsName (on_ctx f)
  on_ctx-KeepsName f c w = elim (Option-cases c.ctx) [ inl e ↦ rw e tt | inr (x, e) ↦ rw e refl ]

  execute-KeepsName : (cmd : List ℕ) → KeepsName (execute h cmd)
  unfolding execute
  execute-KeepsName cmd =
      bind-KeepsName _ _ (on_ctx-KeepsName (λ x. h.command x cmd)) (λ a c w. refl)

  settle-KeepsName : (b : Bool) → KeepsName (settle h b)
  unfolding settle close
  settle-KeepsName true c w = refl
  settle-KeepsName false c w = refl

  login-KeepsName : (cmd : List ℕ) → KeepsName (execute h cmd >>= settle h)
  login-KeepsName cmd =
      bind-KeepsName (execute h cmd) (settle h) (execute-KeepsName cmd) settle-KeepsName

  select_db-KeepsName : KeepsName (select_db h)
  unfolding select_db
  select_db-KeepsName c w = login-KeepsName _ c w

  auth_with :
      (p : List ℕ) (c : Redis Context) (w : World)
      → c.passwd ≡ p
      → Whenever (λ r. named r.1 ≡ named c) (auth_db h c w)
  unfolding auth_db
  auth_with [] c w e = rw (e, auth_db) refl
  auth_with (b ∷ bs) c w e = rw (e, auth_db) (login-KeepsName _ c w)

  auth_db-KeepsName : KeepsName (auth_db h)
  auth_db-KeepsName c w = auth_with c.passwd c w refl

  log_in-KeepsName : KeepsName (log_in h)
  unfolding log_in
  log_in-KeepsName =
      bind-KeepsName (set_status ctx_ok) _ (λ c w. refl)
        (λ _. bind-KeepsName (auth_db h) _ auth_db-KeepsName next)
    where
      next :
          (b : Bool)
          → KeepsName
              (elim b as (λ _. M Context World Bool) [ true ↦ select_db h | false ↦ pure false ])
      next true = select_db-KeepsName
      next false = pure-KeepsName false

  refuse-KeepsName : KeepsName (close h >> pure false)
  refuse-KeepsName = bind-KeepsName (close h) _ close-KeepsName (λ _. pure-KeepsName false)

  check_ctx-KeepsName : (o : Option Context) → KeepsName (check_ctx h o)
  unfolding check_ctx
  check_ctx-KeepsName none c w = refuse-KeepsName c w
  check_ctx-KeepsName (some x) c w = elim (Bool-cases (h.has_err x w)) [
    | inl t ↦ rw t (refuse-KeepsName c w)
    | inr f ↦ rw f (log_in-KeepsName c w)
  ]

  conn-KeepsName : KeepsName (conn h)
  unfolding conn
  conn-KeepsName c w =
      check_ctx-KeepsName (h.connect c.ip c.port c.timeout w).0
        (record c { ctx = (h.connect c.ip c.port c.timeout w).0 })
        (h.connect c.ip c.port c.timeout w).1

  pub reconn-KeepsName : KeepsName (reconn h)
  unfolding reconn close
  reconn-KeepsName c w =
      bind-KeepsName (close h) (λ _. conn h) close-KeepsName (λ _. conn-KeepsName) c w
