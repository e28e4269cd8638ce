-- ===== src/AsynDbPool/Tests.antt =====
-- Tests and witnesses for the asynchronous connections.
use mathlib.Core.Option
use functions.Base.{ℕ, Bool, Option, ◌≡◌, refl, true, false, List, [], ◌∷◌, none, some, arith}
use functions.Printf.{bytes}
use functions.RedisCtx.Commands.Reconnect.{Ensures}
use functions.AsynCtx
use functions.AsynCtx.{
  is_ok_reply, set_host, set_timeout, callback_select, close, conn, next_connect, connected_at,
  send_task, next_accept, Loop, callback_cmd_set, reconn, new_asyn,
}
use functions.AsynDbPool.{
  disconnects, always, happen, add, at, AsynEvent, adds, resets, operates, answers_select,
  answers_cmd, happen_all, new_pool,
}
use functions.AsynDbPool.Runs.{Orderly, AllStay-Orderly, IsSettled, happen_all-IsSettled}

-- The second command is not taken, the connection is made anew, and its select fails.
abbrev some_events : List AsynEvent
some_events =
    answers_select 0 (some (record { str = some (bytes "OK") }))
    ∷ operates (bytes "k")
    ∷ operates (bytes "k")
    ∷ answers_cmd 0 none
    ∷ resets (bytes "l")
    ∷ []

-- The first context gets no answer, is given back and freed.
abbrev all_events : List AsynEvent
all_events = answers_select 0 none ∷ disconnects 100 ∷ some_events

abbrev some_connects : List (Option (ℕ × Bool))
some_connects = some (100, false) ∷ some (200, false) ∷ none ∷ []

all_events-Orderly :
    Orderly all_events
      (happen (adds (bytes "10.0.0.1") 6379 0) (new_pool some_connects (true ∷ true ∷ false ∷ [])))
unfolding happen_all happen add at new_pool reconn close conn next_connect connected_at send_task
    next_accept callback_select is_ok_reply new_asyn set_host set_timeout
all_events-Orderly = (
  tt,
  (
    refl,
    AllStay-Orderly some_events
        (happen_all (adds (bytes "10.0.0.1") 6379 0 ∷ answers_select 0 none ∷ disconnects 100 ∷ [])
          (new_pool some_connects (true ∷ true ∷ false ∷ [])))
        (tt, (tt, (tt, (tt, (tt, tt))))),
  ),
)

happen_all-IsSettled_example : Ensures IsSettled (
    happen_all
      (adds (bytes "10.0.0.1") 6379 0 ∷ all_events)
      (new_pool some_connects (true ∷ true ∷ false ∷ [])))
happen_all-IsSettled_example =
    happen_all-IsSettled some_connects (true ∷ true ∷ false ∷ []) (bytes "10.0.0.1") 6379 0
      all_events (omega arith, (tt, (omega arith, (tt, (tt, (omega arith, (tt, tt)))))))
      all_events-Orderly

abbrev one_context : Loop
one_context = record {
  connects = some (100, false) ∷ [];
  accepts = true ∷ [];
  given = [];
  dropped = [];
  datas = [];
  freed = [];
}

-- The reply that never came, to a command on an earlier context, closes the new one.
late_reply_closes :
    (callback_cmd_set none
      (reconn 0 (new_asyn 0) one_context).1
      (reconn 0 (new_asyn 0) one_context).2).1.dropped
    ≡ 100 ∷ []
unfolding reconn close conn next_connect connected_at send_task next_accept callback_cmd_set
    new_asyn
late_reply_closes = refl

-- A server that closes the connection leaves the object with the freed context, which its next operation
-- reads.
freed_context_faults :
    Option.map (at 0 always (AsynCtx.operation 0)) (
      happen_all
        (adds (bytes "10.0.0.1") 6379 0 ∷ disconnects 100 ∷ [])
        (new_pool some_connects (true ∷ true ∷ false ∷ [])))
    ≡ some none
unfolding happen_all happen at add new_pool reconn close conn next_connect connected_at send_task
    next_accept new_asyn set_host set_timeout AsynCtx.operation
freed_context_faults = refl
