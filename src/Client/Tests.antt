-- ===== src/Client/Tests.antt =====
-- redis_client.cpp: runs of the client at fixed inputs.
use functions.Base.{Option, List, ◌≡◌, refl, true, false, [], ◌∷◌, none, some, arith}
use functions.Base.Int.{pos}
use functions.Cache.{Cache}
use functions.Cache.Sixteen.{small_pool}
use functions.SocketSet.{reconnect, takes}
use functions.Queue.{Memory, Queue, actual_len}
use functions.Queue.Segments.{Holds}
use functions.Client.{
  close_fd, first_or, word, World, Scene, Conns, append_cmd, process_request_queue, serve_socket,
  get_memory_pool_block_count,
}
use functions.Client.Dispatch.{Event, connect_again, add, close_socket}
use functions.Client.Attempts.{Attempted}
use functions.Client.Requests.{AllServed, RedisRequest, Served, append_cmd-Served}
use functions.Client.Events.{Lacks, SceneIsWatched, serve_socket-SceneIsWatched, close_socket-Lacks}

abbrev empty_memory : Memory
empty_memory = λ i. 0

abbrev empty_queue : Queue
empty_queue = record {
  is_allocated = true;
  memory = empty_memory;
  size = 1024;
  enqueue_pos = 0;
  pre_enqueue_pos = 0;
  dequeue_pos = 0;
  pre_dequeue_pos = 0;
  on_enqueued = false;
  calls = 0;
}

empty_queue-Holds : Holds empty_queue []
empty_queue-Holds = record {
  is_size = record { exponent = 10; power = refl; at_least = omega arith; at_most = omega arith };
  aligned = refl;
  none_enqueues = refl;
  none_dequeues = refl;
  no_wrap = omega arith;
  within = omega arith;
  segment = refl;
}

abbrev blank_cache : Cache
blank_cache = record { memory = []; offset = 0; total_len = 0; data_len = 0; cookie = 0 }

-- The server answers at the descriptors 7 and 8.
abbrev two_answers : World
two_answers = record {
  connects = some 7 ∷ some 8 ∷ [];
  controls = true ∷ true ∷ [];
  sockopts = [];
  writes = (takes 9 ∷ []) ∷ [];
  reads = [];
  watched = [];
  closed = [];
  wires = [];
}

abbrev no_conns : Conns small_pool
no_conns = record { nodes = []; sockets = []; recv_pool = 0; send_pool = 0; world = two_answers }

-- One server, at "1" and the port 9.
abbrev one_server : Conns small_pool
one_server = (add small_pool blank_cache 1 (49 ∷ []) 9 no_conns).1

abbrev a_request : RedisRequest
a_request = record { key = 1 ∷ 2 ∷ []; cmd = 3 ∷ 4 ∷ 5 ∷ [] }

append_cmd-Served_example :
    (q' : Queue) × (append_cmd (some (1 ∷ 2 ∷ [])) (some (3 ∷ 4 ∷ 5 ∷ [])) empty_queue
      ≡ some (pos 0, q'))
    × (o : Option (Conns small_pool)) × AllServed small_pool (a_request ∷ []) one_server o
    × Served small_pool (process_request_queue small_pool 2 false q' one_server) o
unfolding actual_len word
append_cmd-Served_example =
    append_cmd-Served small_pool [] a_request 2 false empty_queue one_server empty_queue-Holds tt
      (omega arith) (omega arith) (omega arith) (omega arith)

-- A closed socket, for which the server answers at the descriptor 7.
abbrev closed_scene : Scene small_pool
closed_scene = record {
  socket = record { rc = blank_cache; sc = blank_cache; ip = 1; fd = none; port = 9 };
  recv_pool = 0;
  send_pool = 0;
  world = two_answers;
}

serve_socket-SceneIsWatched_example :
    Attempted small_pool
      (3 ∷ 4 ∷ [])
      closed_scene
      (serve_socket small_pool (3 ∷ 4 ∷ []) closed_scene)
    × SceneIsWatched small_pool (serve_socket small_pool (3 ∷ 4 ∷ []) closed_scene)
serve_socket-SceneIsWatched_example =
    serve_socket-SceneIsWatched small_pool (3 ∷ 4 ∷ []) closed_scene tt

-- The socket is open and watched at the descriptor 5.
abbrev open_scene : Scene small_pool
open_scene = record {
  socket = record { rc = blank_cache; sc = blank_cache; ip = 1; fd = some 5; port = 9 };
  recv_pool = 0;
  send_pool = 0;
  world = record two_answers { watched = 5 ∷ [] };
}

-- The descriptor 5 is closed, and the new descriptor 7 is not watched.
descriptor_is_closed :
    ((close_socket small_pool open_scene).world.closed ≡ 5 ∷ [])
    × ((close_socket small_pool open_scene).world.watched ≡ [])
unfolding close_socket close_fd connect_again reconnect first_or
descriptor_is_closed = (refl, refl)

close_socket-Lacks_example :
    ((close_socket small_pool open_scene).socket.fd ≡ some 7)
    × ((close_socket small_pool open_scene).world.closed ≡ 5 ∷ [])
    × Lacks 5 (close_socket small_pool open_scene).world.watched
    × Lacks 7 (close_socket small_pool open_scene).world.watched
unfolding first_or
close_socket-Lacks_example =
    close_socket-Lacks small_pool open_scene 7 refl ((λ e. absurd (omega arith)), tt)

blocks_for_a_million : get_memory_pool_block_count 1000000 ≡ 551000
unfolding get_memory_pool_block_count
blocks_for_a_million = refl

-- A client with one socket, at a ring with one node.
abbrev one_route : Conns small_pool
one_route = record {
  nodes = (17, 0) ∷ [];
  sockets = closed_scene.socket ∷ [];
  recv_pool = 0;
  send_pool = 0;
  world = two_answers;
}

-- The socket can be read, and then the peer hangs up.
abbrev two_rounds : List (List Event)
two_rounds =
    (record { can_read = true; can_write = true; hung_up = false; place = 0 } ∷ [])
    ∷ (record { can_read = false; can_write = false; hung_up = true; place = 0 } ∷ [])
    ∷ []
