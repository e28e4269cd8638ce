-- ===== src/DbConn/Tests.antt =====
-- Tests and witnesses for DbConn.cpp.
use functions.Base.{ℕ, true, false, List, [], ◌∷◌, some}
use functions.Base.Int.{pos}
use functions.Printf.{bytes}
use functions.Hiredis.Script.{scripted-Dependable, scripted, playing}
use functions.RedisCtx.Commands.Reconnect.{Ensures}
use functions.DbConn.{Conf, PoolCall, reads, writes, removes, flushes_all, session}
use functions.DbConn.Sessions.{PoolStarted, session-PoolStarted}

abbrev one_server : Conf
one_server = some ([], record { ip = bytes "10.0.0.1"; port = pos 6379; cnt = pos 1 } ∷ [])

abbrev four_calls : List (PoolCall (List ℕ))
four_calls =
    reads (bytes "k") (bytes "GET k")
    ∷ writes (bytes "l") (bytes "SET l 1")
    ∷ removes (bytes "k*")
    ∷ flushes_all
    ∷ []

session-PoolStarted_example :
    Ensures (PoolStarted scripted) (
      session scripted one_server one_server four_calls (playing (true ∷ true ∷ true ∷ false ∷ [])))
session-PoolStarted_example =
    session-PoolStarted scripted scripted-Dependable one_server one_server four_calls
      (playing (true ∷ true ∷ true ∷ false ∷ []))
