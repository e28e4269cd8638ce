-- ===== src/RedisCtx/First.antt =====
-- _RedisHeader.cpp: a first connection to the server of the tests.
use functions.Base.{ℕ, ◌≡◌, refl, true, List, [], some, none}
use functions.Hiredis.Script.{scripted, playing}
use functions.RedisCtx.{
  Redis, ctx_ok, close, execute, settle, select_db, auth_db, log_in, check_ctx, conn, reconn,
}

-- An object as `DbBase::add` sets it up, with a context or none.
abbrev pub set_up : List ℕ → List ℕ → Redis (Unit {0})
set_up key ip = record {
  timeout = 3;
  port = 6379;
  index = 0;
  status = ctx_ok;
  app_cnt = 0;
  key = key;
  ip = ip;
  passwd = [];
  ctx = none;
}

pub reconn_first :
    (key ip : List ℕ)
    → reconn scripted (set_up key ip) (playing [])
      ≡ some (
        true,
        record (set_up key ip) { ctx = some tt },
        record { opened = 1; freed = 0; script = [] },
      )
unfolding reconn close conn check_ctx log_in auth_db select_db execute settle
reconn_first key ip = refl
