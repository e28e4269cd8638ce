-- ===== src/Queue/Tests.antt =====
-- queue.cpp: runs of the queue at fixed inputs.
use functions.Base.{ℕ, ◌≡◌, refl, true, false, List, [], ◌∷◌, ◌++◌, some, arith}
use mathlib.Core.Option
use functions.Base.Int.{pos, negsuc}
use functions.Queue.{
  Memory, Queue, empty, lost, got, init, actual_len, len_at, memcpy_v, enqueue_len, sum_len,
  has_room, reserve, publish, claim, retire, fill, len_to_copy, write_bytes, header, actual_pos,
  extract, hand_over, read_bytes,
}
use functions.Queue.Packets.{IsSize}
use functions.Queue.Segments.{Holds}
use functions.Queue.Fifo.{Request, put, get, code, packet, answer_all, serve_all, answer_all-init}
use functions.Queue.History.{At}
use functions.Queue.Threads.{
  Pc, System, Shared, Move, call_enqueue, loads, room, reserve_won, fills, publishes, call_dequeue,
  find, sees_some, reads_len, claim_won, copies, pick, at_start, Reach, start, later,
}
use functions.Queue.Threads.Defs.{owns}
use functions.Queue.Threads.Invariant.{IsFresh}
use functions.Queue.Threads.Order.{received-prefix, copied-received}
use functions.Queue.Threads.Progress.{Grows, publish_progress, retire_progress}

abbrev blank : Memory
blank = λ i. 0

abbrev fresh : Queue
fresh = record {
  is_allocated = true;
  memory = blank;
  size = 1024;
  enqueue_pos = 0;
  pre_enqueue_pos = 0;
  dequeue_pos = 0;
  pre_dequeue_pos = 0;
  on_enqueued = false;
  calls = 0;
}

smallest-IsSize : IsSize 1024
smallest-IsSize = record {
  exponent = 10;
  power = refl;
  at_least = omega arith;
  at_most = omega arith;
}

fresh-IsFresh : IsFresh fresh
fresh-IsFresh = (
  record {
    is_size = smallest-IsSize;
    aligned = refl;
    none_enqueues = refl;
    none_dequeues = refl;
    no_wrap = omega arith;
    within = omega arith;
    segment = refl;
  },
  refl,
)

abbrev two_pieces : List (List ℕ)
two_pieces = (1 ∷ 2 ∷ []) ∷ (3 ∷ []) ∷ []

abbrev calls : List Request
calls =
    put two_pieces
    ∷ put []
    ∷ get 2 false
    ∷ put (two_pieces ++ two_pieces)
    ∷ get 2 true
    ∷ get 9 true
    ∷ []

calls_answers :
    (serve_all 1024 calls []).0
    ≡ code (pos 0)
      ∷ code (negsuc 1)
      ∷ packet (lost 3)
      ∷ code (pos 0)
      ∷ packet (got true (1 ∷ 2 ∷ 3 ∷ 1 ∷ 2 ∷ 3 ∷ []))
      ∷ packet empty
      ∷ []
unfolding serve_all actual_len
calls_answers = refl

calls_answered : Option.map (λ r. r.0) (answer_all calls fresh) ≡ some (serve_all 1024 calls []).0
unfolding answer_all serve_all enqueue_len sum_len has_room reserve publish claim retire fill
    memcpy_v len_to_copy write_bytes header actual_len actual_pos extract hand_over len_at
    read_bytes
calls_answered = refl

answer_all-init_example :
    (q0 : Queue) × (q' : Queue) × (init (some blank) 1024 false fresh ≡ (pos 0, q0))
    × (answer_all calls q0 ≡ some ((serve_all 1024 calls []).0, q'))
    × Holds q' (serve_all 1024 calls []).1
answer_all-init_example = answer_all-init blank 1024 false fresh calls smallest-IsSize (omega arith)

-- Thread 0 puts a packet in while thread 1 waits for one.
record Reached : Type 0 where
  state : System
  reach : Reach fresh state

abbrev then_move :
    (r : Reached) (i : ℕ) {t : Shared} {p : Pc} → Move r.state.shared (r.state.pc i) t p → Reached
then_move r i mv = record { state = _; reach = later r.reach (pick i mv) }

abbrev begin : Reached
begin = record { state = at_start fresh; reach = start }

abbrev asked : Reached
asked = then_move (then_move begin 0 (call_enqueue {v = two_pieces} (omega arith))) 0 loads

abbrev in_copy : Reached
unfolding has_room reserve publish claim actual_len fill len_at extract write_bytes memcpy_v
    len_to_copy header actual_pos read_bytes
in_copy =
    then_move (then_move asked 0 (room {v = two_pieces} {p = 0} refl)) 0
      (reserve_won {v = two_pieces} {p = 0} refl (omega arith))

abbrev put_in : Reached
unfolding has_room reserve publish claim actual_len fill len_at extract write_bytes memcpy_v
    len_to_copy header actual_pos read_bytes
put_in = then_move (then_move in_copy 0 fills) 0 (publishes {v = two_pieces} {p = 0} refl)

abbrev taken : Reached
unfolding has_room reserve publish claim actual_len fill len_at extract write_bytes memcpy_v
    len_to_copy header actual_pos read_bytes
taken =
    then_move
      (then_move
        (then_move (then_move (then_move put_in 1 call_dequeue) 1 find) 1 (sees_some {p = 0} refl))
        1 reads_len)
      1 (claim_won {p = 0} refl)

abbrev copied_out : Reached
unfolding has_room reserve publish claim actual_len fill len_at extract write_bytes memcpy_v
    len_to_copy header actual_pos read_bytes
copied_out = then_move taken 1 copies

publish_progress_example : Grows (λ q. q.enqueue_pos) in_copy.state
unfolding has_room reserve publish claim actual_len fill len_at extract write_bytes memcpy_v
    len_to_copy header actual_pos read_bytes
publish_progress_example = publish_progress fresh-IsFresh in_copy.reach (omega arith)

retire_progress_example : Grows (λ q. q.dequeue_pos) copied_out.state
unfolding has_room reserve publish claim actual_len fill len_at extract write_bytes memcpy_v
    len_to_copy header actual_pos read_bytes
retire_progress_example = retire_progress fresh-IsFresh copied_out.reach (omega arith)

received-prefix_example :
    (rest : List (List ℕ)) × (copied_out.state.shared.sent
      ≡ copied_out.state.shared.received ++ rest)
unfolding has_room reserve publish claim actual_len fill len_at extract write_bytes memcpy_v
    len_to_copy header actual_pos read_bytes
received-prefix_example = received-prefix fresh-IsFresh copied_out.reach

copied-received_example :
    At copied_out.state.shared.received 0 0 (1 ∷ 2 ∷ 3 ∷ [])
    × (◌≡◌ {A = ℕ} 3 3)
    × ((j : ℕ) → owns (copied_out.state.pc j) ≡ some 0 → 1 ≡ j)
unfolding has_room reserve publish claim actual_len fill len_at extract write_bytes memcpy_v
    len_to_copy header actual_pos read_bytes
copied-received_example = copied-received fresh-IsFresh copied_out.reach 1 0 3 (1 ∷ 2 ∷ 3 ∷ []) refl
