-- ===== src/RedisCtx.antt =====
-- redis-pool/src/RedisHeader.h and _RedisHeader.cpp: `RedisCtx`, one synchronous connection with its
-- pipeline. A method gets the object and the world and returns both beside its result. `none` is a
-- call of hiredis on a NULL context, which crashes. Log lines are left out.
pub mod Commands
pub mod First
pub mod Names
use functions.Base.{
  ℕ, Bool, true, false, not, List, [], ◌∷◌, ◌++◌, Option, none, some, if◌then◌else◌,
}
use functions.Printf.{bytes, decimal, snprintf}
use functions.Hiredis.{Hiredis}

-- `enum CTX_STATUS`
pub data Status : Type 0 where
  ctx_ok ctx_init ctx_err ctx_close : Status

abbrev is_ok : Status → Bool
is_ok ctx_ok = true
is_ok _ = false

-- `MAX_VNODE_CNT`, `MAX_REDIS_DB_CNT`, `DB_CONN_TIMEOUT` and `MAX_COMMIT_CNT`
abbrev pub max_vnode_cnt : ℕ
max_vnode_cnt = 4

abbrev pub max_redis_db_cnt : ℕ
max_redis_db_cnt = 1

abbrev pub db_conn_timeout : ℕ
db_conn_timeout = 3

abbrev pub max_commit_cnt : ℕ
max_commit_cnt = 5000

unfoldable pub gen_key : List ℕ → ℕ → ℕ → ℕ → List ℕ
gen_key ip port index vnode = snprintf 256 (
    bytes "REDIS:"
    ++ (ip
        ++ (bytes ":"
            ++ (decimal port
                ++ (bytes ":" ++ (decimal index ++ (bytes "-VNODE:" ++ decimal vnode)))))))

-- The fields of `RedisCtx`; `C` is the type of contexts.
pub record Redis (C : Type 0) : Type 0 where
  pub timeout : ℕ
  pub port : ℕ
  pub index : ℕ
  pub status : Status
  pub app_cnt : ℕ
  pub key : List ℕ
  pub ip : List ℕ
  pub passwd : List ℕ
  pub ctx : Option C

-- The constructor. It leaves the status at CTX_OK, with no context.
unfoldable pub new_redis : {C : Type 0} → Redis C
new_redis = record {
  timeout = 3;
  port = 0;
  index = 0;
  status = ctx_ok;
  app_cnt = 0;
  key = [];
  ip = [];
  passwd = [];
  ctx = none;
}

module _ {C : Type 0} where
  unfoldable pub set_timeout : ℕ → Redis C → Redis C
  set_timeout sec c = record c { timeout = sec }

  unfoldable pub set_host : List ℕ → ℕ → ℕ → Redis C → Redis C
  set_host ip port index c = record c {
    ip = ip;
    port = port;
    index = index;
    key = gen_key ip port index max_vnode_cnt;
  }

  unfoldable pub set_auth_passwd : List ℕ → Redis C → Redis C
  set_auth_passwd p c = record c { passwd = p }

  chk_valid : Redis C → Bool
  chk_valid c = elim c.ctx [ none ↦ false | some x ↦ is_ok c.status ]

-- What a method does: it faults, or returns its result, the object and the world.
abbrev pub M : Type 0 → Type 0 → Type 0 → Type 0
M C W A = Redis C → W → Option (A × Redis C × W)

module _ {C W : Type 0} where
  infixl 5 ◌>>=◌ ◌>>◌
  abbrev pub ◌>>=◌ : {A B : Type 0} → M C W A → (A → M C W B) → M C W B
  ◌>>=◌ m f c w = elim (m c w) [ none ↦ none | some (a, c', w') ↦ f a c' w' ]

  abbrev pub ◌>>◌ : {A B : Type 0} → M C W A → M C W B → M C W B
  m >> k = m >>= λ _. k

  abbrev pub pure : {A : Type 0} → A → M C W A
  pure a c w = some (a, c, w)

  -- A call of hiredis on `ctx`.
  abbrev pub on_ctx : {A : Type 0} → (C → W → A × W) → M C W A
  on_ctx f c w = elim c.ctx [ none ↦ none | some x ↦ some ((f x w).0, c, (f x w).1) ]

  abbrev set_status : Status → M C W (Unit {0})
  set_status s c w = some (tt, record c { status = s }, w)

module _ (h : Hiredis) where
  open h use {World, Context, Reply}

  abbrev free_ctx : Option Context → World → World
  free_ctx none w = w
  free_ctx (some x) w = h.free x w

  pub close : M Context World (Unit {0})
  close c w = some (tt, record c { ctx = none; status = ctx_close; app_cnt = 0 }, free_ctx c.ctx w)

  -- Whether the command got a reply that is no error.
  pub execute : List ℕ → M Context World Bool
  execute cmd = do
    reply ← on_ctx (λ x. h.command x cmd)
    pure (elim reply [ none ↦ false | some r ↦ not (h.is_error r) ])

  -- `if (bOk) status = CTX_OK; else close();`
  settle : Bool → M Context World Bool
  unfolding close
  settle true = do set_status ctx_ok; pure true
  settle false = do close; pure false

  select_db : M Context World Bool
  select_db c = (execute (snprintf 64 (bytes "select " ++ decimal c.index)) >>= settle) c

  auth_db : M Context World Bool
  auth_db c = elim c.passwd [
    | [] ↦ pure true c
    | p ∷ ps ↦ (execute (snprintf 64 (bytes "auth " ++ (p ∷ ps))) >>= settle) c
  ]

  -- `conn` behind its check of `ctx->err`.
  log_in : M Context World Bool
  log_in = do set_status ctx_ok; done ← auth_db; elim done [ true ↦ select_db | false ↦ pure false ]

  -- `conn` behind its call of hiredis.
  check_ctx : Option Context → M Context World Bool
  check_ctx none c w = (close >> pure false) c w
  check_ctx (some x) c w = if h.has_err x w then (close >> pure false) c w else log_in c w

  conn : M Context World Bool
  conn c w =
      let (o, w') = h.connect c.ip c.port c.timeout w in check_ctx o (record c { ctx = o }) w'

  pub reconn : M Context World Bool
  unfolding close
  reconn = do close; conn
