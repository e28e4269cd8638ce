-- ===== src/RedisCtx/Commands/Tests.antt =====
-- Tests and witnesses for `RedisCtx` of _RedisHeader.cpp.
use functions.Base.{ℕ, ◌+◌, ◌≡◌, refl, true, false, List, [], ◌∷◌, some, arith}
use functions.Printf.{bytes}
use functions.Hiredis.Script.{scripted-Dependable, Server, scripted, scripted_counts, playing}
use functions.RedisCtx.{
  Redis, ctx_ok, close, execute, settle, select_db, auth_db, log_in, check_ctx, conn, reconn,
}
use functions.RedisCtx.Commands.{
  call, Call, reconnects, commits, operates, appends, deletes, run, operation, commit,
}
use functions.RedisCtx.Commands.Reconnect.{Ensures, IsValid, IsFresh, reconn-IsFresh}
use functions.RedisCtx.Commands.Runs.{configured, run-IsValid}
use functions.RedisCtx.Commands.Effects.{Settled, commit-empties, operation-Settled}
use functions.RedisCtx.Commands.Leaks.Calls.{run-Balanced}

abbrev host : List ℕ
host = bytes "10.0.0.1"

-- An object with a context, one command in its pipeline and a password.
abbrev busy : Redis (Unit {0})
busy = record {
  timeout = 3;
  port = 6379;
  index = 0;
  status = ctx_ok;
  app_cnt = 1;
  key = [];
  ip = host;
  passwd = bytes "secret";
  ctx = some tt;
}

busy-IsValid : IsValid busy
busy-IsValid = record { idle = λ e. cc; ready = λ _. refl; bounded = omega arith }

-- A connection, two commands of which the second fails, and the connection that follows.
abbrev some_calls : List (Call (List ℕ))
some_calls =
    reconnects
    ∷ appends (bytes "SET a 1")
    ∷ operates (bytes "GET a")
    ∷ deletes (bytes "a*")
    ∷ commits
    ∷ []

abbrev some_answers : Server
some_answers = playing (true ∷ true ∷ true ∷ false ∷ true ∷ false ∷ [])

run-IsValid_example :
    Ensures (λ r. IsValid r.1) (run scripted some_calls (configured host 6379 0 []) some_answers)
run-IsValid_example =
    run-IsValid scripted scripted-Dependable host 6379 0 [] some_calls some_answers

reconn-IsFresh_example :
    Ensures (λ r. IsFresh r.0 r.1) (reconn scripted busy (playing (true ∷ false ∷ [])))
reconn-IsFresh_example = reconn-IsFresh scripted busy (playing (true ∷ false ∷ []))

commit-empties_example :
    Ensures (λ r. r.1.app_cnt ≡ 0) (commit scripted busy (playing (false ∷ [])))
commit-empties_example =
    commit-empties scripted scripted-Dependable busy (playing (false ∷ [])) busy-IsValid

operation-Settled_example :
    Ensures (Settled scripted busy) (operation scripted (bytes "GET a") busy (playing (false ∷ [])))
operation-Settled_example =
    operation-Settled scripted (bytes "GET a") busy (playing (false ∷ [])) busy-IsValid

-- What a first connection leaves.
connected_run :
    run scripted (reconnects ∷ []) (configured host 6379 0 []) (playing [])
    ≡ some (
      tt,
      record (configured host 6379 0 []) { ctx = some tt },
      record { opened = 1; freed = 0; script = [] },
    )
unfolding run call reconn close conn check_ctx log_in auth_db select_db execute settle configured
connected_run = refl

run-Balanced_example : 1 + 0 ≡ 0 + 0 + 1
run-Balanced_example =
    run-Balanced scripted scripted_counts host 6379 0 [] (reconnects ∷ []) (playing [])
      connected_run
