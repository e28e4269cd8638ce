-- ===== src/DbBase/Tests.antt =====
-- Tests and witnesses for DbBase.cpp.
use functions.Base.{ℕ, ◌≡◌, ◌≢◌, refl, true, false, List, [], ◌∷◌, some, arith}
use functions.Base.Int.{pos}
use functions.Printf.{bytes}
use functions.Hiredis.Script.{scripted-Dependable, scripted, playing}
use functions.RedisConf.{HostInfo}
use functions.RedisCtx.{Redis, ctx_ok}
use functions.RedisCtx.Commands.Reconnect.{Ensures}
use functions.DbBase.{
  Db, new_db, init, db_run, DbCall, operates, appends, commits, deletes, chk_pattern,
}
use functions.DbBase.Valid.{IsValidDb, Kept}
use functions.DbBase.Start.{Started, init-Started}
use functions.DbBase.Serve.{db_run-Kept}

no_stars : chk_pattern (bytes " ** ") ≡ false
unfolding chk_pattern
no_stars = refl

abbrev one_host : HostInfo
one_host = record { ip = bytes "10.0.0.1"; port = pos 6379; cnt = pos 2 }

-- The second of the two connections fails.
init-Started_example : Ensures (Started scripted) (
    init scripted (some ([], one_host ∷ [])) (new_db scripted) (playing (true ∷ true ∷ false ∷ [])))
init-Started_example =
    init-Started scripted (some ([], one_host ∷ [])) (playing (true ∷ true ∷ false ∷ []))

abbrev one_ctx : Redis (Unit {0})
one_ctx = record {
  timeout = 3;
  port = 6379;
  index = 0;
  status = ctx_ok;
  app_cnt = 0;
  key = [];
  ip = bytes "10.0.0.1";
  passwd = [];
  ctx = some tt;
}

-- A pool of one connection.
abbrev one_db : Db scripted
one_db = record { auth_passwd = []; nodes = (17, 0) ∷ []; vec = one_ctx ∷ [] }

one_db-IsValidDb : IsValidDb scripted one_db
one_db-IsValidDb = record {
  linked = record { ring = ground arith; inside = ground arith };
  valid = (record { idle = λ e. cc; ready = λ _. refl; bounded = omega arith }, tt);
}

has_nodes : one_db.nodes ≢ []
has_nodes = λ e. cc

abbrev some_calls : List (DbCall (List ℕ))
some_calls =
    operates (bytes "k") (bytes "GET k")
    ∷ appends (bytes "l") (bytes "SET l 1")
    ∷ deletes (bytes "k*")
    ∷ commits
    ∷ []

db_run-Kept_example :
    Ensures
      (Kept scripted one_db)
      (db_run scripted some_calls one_db (playing (false ∷ true ∷ false ∷ [])))
db_run-Kept_example =
    db_run-Kept scripted scripted-Dependable some_calls one_db (playing (false ∷ true ∷ false ∷ []))
      one_db-IsValidDb has_nodes
