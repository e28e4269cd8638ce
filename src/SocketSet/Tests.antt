-- ===== src/SocketSet/Tests.antt =====
-- Tests and witnesses for socket_set.cpp.
use functions.Base.{◌≡◌, ◌≢◌, refl, List, [], ◌∷◌, some, take, arith}
use functions.Cache.{Cache, contents}
use functions.Cache.Contents.{IsValid}
use functions.Cache.Sixteen.{small_pool, small_pool-GivesRoom}
use functions.SocketSet.{
  takes, write_interrupted, Kernel, Env, Socket, gives, read_interrupted, ReadAnswer, wrote, write,
  write_loop, send_data, send_data_cache, recv_data,
}
use functions.SocketSet.Send.{Delivered, send_data-Delivered}
use functions.SocketSet.Flush.{Flushed, send_data_cache-Flushed}
use functions.SocketSet.Repeat.{send_data_repeats}
use functions.SocketSet.Receive.{Drained, recv_data-Drained}

abbrev holding_none : Cache
holding_none = record { memory = []; offset = 0; total_len = 0; data_len = 0; cookie = 0 }

holding_none-IsValid : IsValid holding_none
holding_none-IsValid = record {
  small = omega arith;
  room = omega arith;
  inside = omega arith;
  at_start = λ e. refl;
}

-- The bytes 7 and 8 in a block of four.
abbrev holding_two : Cache
holding_two = record {
  memory = 0 ∷ 7 ∷ 8 ∷ 0 ∷ [];
  offset = 1;
  total_len = 4;
  data_len = 2;
  cookie = 3;
}

holding_two-IsValid : IsValid holding_two
holding_two-IsValid = record {
  small = omega arith;
  room = omega arith;
  inside = omega arith;
  at_start = λ e. ground arith;
}

abbrev socket_with : Cache → Socket
socket_with c = record { rc = c; sc = c; ip = 1; fd = some 4; port = 80 }

abbrev env_with : Cache → Kernel → Env small_pool
env_with c k = record { socket = socket_with c; kernel = k; pool = 1 }

-- `write` is interrupted, then takes two bytes.
abbrev takes_two : Kernel
takes_two = record { answers = write_interrupted ∷ takes 2 ∷ []; wire = 1 ∷ [] }

send_data-Delivered_example :
    Delivered small_pool small_pool-GivesRoom
      (5 ∷ 6 ∷ 7 ∷ [])
      (env_with holding_none takes_two)
      (send_data small_pool (5 ∷ 6 ∷ 7 ∷ []) (env_with holding_none takes_two))
send_data-Delivered_example =
    send_data-Delivered small_pool small_pool-GivesRoom (5 ∷ 6 ∷ 7 ∷ [])
      (env_with holding_none takes_two) holding_none-IsValid refl (omega arith)

send_data_cache-Flushed_example :
    Flushed small_pool
      (env_with holding_two takes_two)
      (send_data_cache small_pool (env_with holding_two takes_two))
send_data_cache-Flushed_example =
    send_data_cache-Flushed small_pool (env_with holding_two takes_two) holding_two-IsValid

takes_all : (write (contents holding_two) takes_two).0 ≡ wrote 2
unfolding write write_loop contents
takes_all = refl

holding_some : holding_two.data_len ≢ 0
holding_some = omega arith

send_data_repeats_example :
    take 2 (contents (send_data small_pool (5 ∷ []) (env_with holding_two takes_two)).1.socket.sc)
    ≡ contents holding_two
send_data_repeats_example =
    send_data_repeats small_pool small_pool-GivesRoom (5 ∷ []) (env_with holding_two takes_two)
      holding_two-IsValid refl holding_some (omega arith) takes_all

abbrev some_reads : List ReadAnswer
some_reads = read_interrupted ∷ gives (9 ∷ 8 ∷ []) ∷ []

recv_data-Drained_example :
    Drained small_pool
      (recv_data small_pool (socket_with holding_two) some_reads 1).0
      (recv_data small_pool (socket_with holding_two) some_reads 1).1.rc
recv_data-Drained_example =
    recv_data-Drained small_pool small_pool-GivesRoom (socket_with holding_two) some_reads 1
      holding_two-IsValid
