-- ===== src/Client.antt =====
-- redis-pool/src/redis_client.h and redis_client.cpp: `redis_client_t`. Callers put commands into the
-- queue, and one thread takes them out and sends them on sockets that epoll watches.
pub mod Attempts
pub mod Places
pub mod Requests
pub mod Dispatch
pub mod Events
pub mod Rounds
mod Tests
use functions.Base.{
  ℕ, zero, suc, ◌+◌, ◌-◌, ◌*◌, ◌/◌, ◌%◌, ◌^◌, Bool, true, false, not, List, [], ◌∷◌, ◌++◌, Option,
  none, some, length, take, drop, get_elem?, set, ltb, leb, ◌==◌, if◌then◌else◌, u32, sub_u32,
  mul_u32, add_u32,
}
use functions.Base.Int.{ℤ, pos, negsuc, pos_part, is_positive}
use functions.HashNodes.{NodeMap, get_node}
use functions.DbBase.{put_vnodes}
use functions.RedisConf.{HostInfo}
use functions.Cache.{Cache, Pool, skip}
use functions.SocketSet.{
  WriteAnswer, ReadAnswer, Socket, Env, valid, reconnect, send_data, send_data_cache, recv_data,
}
use functions.Queue.{Queue, enqueue, Dequeued, empty, lost, got, dequeue}

unfoldable pub get_memory_pool_block_count : ℕ → ℕ
get_memory_pool_block_count socket_count =
    if leb socket_count 1000
    then 3000
    else if leb socket_count 50000
    then add_u32 3000 (mul_u32 (sub_u32 socket_count 1000) 2)
    else if leb socket_count 500000
    then add_u32 101000 (sub_u32 socket_count 50000)
    else 551000

-- The system, by the answers that its calls give next: the descriptor of `tcp_connect_server`, whether
-- `epoll_ctl` and `getsockopt` report no error, what `write` answers during one send and `read` during one
-- reception. `watched` are the descriptors that epoll knows, `closed` those that were closed, the last
-- one first, and `wires` what was written to which descriptor, the last one first.
pub record World : Type 0 where
  pub connects : List (Option ℕ)
  pub controls : List Bool
  pub sockopts : List Bool
  pub writes : List (List WriteAnswer)
  pub reads : List (List ReadAnswer)
  pub watched : List ℕ
  pub closed : List ℕ
  pub wires : List (ℕ × List ℕ)

-- The next answer, and `d` behind the last one.
unfoldable pub first_or : {A : Type 0} → A → List A → A
first_or d [] = d
first_or d (a ∷ as') = a

abbrev pub without : ℕ → List ℕ → List ℕ
without f [] = []
without f (g ∷ gs) = if f == g then without f gs else g ∷ without f gs

-- `close`: epoll forgets the descriptor.
unfoldable pub close_fd : ℕ → World → World
close_fd f w = record w { closed = f ∷ w.closed; watched = without f w.watched }

-- `epoll_ctl` with `EPOLL_CTL_ADD`.
unfoldable pub watch_fd : ℕ → World → Bool × World
unfolding first_or
watch_fd f w =
    let w' = record w { controls = drop 1 w.controls } in
    if first_or false w.controls then (true, record w' { watched = f ∷ w.watched }) else (false, w')

module _ (p : Pool) where
  open p use {State}

  -- A socket with the two memory pools and the system.
  pub record Scene : Type 0 where
    pub socket : Socket
    pub recv_pool : State
    pub send_pool : State
    pub world : World

  -- `send_data(s, cmd.data(), hdr->cmd_len)`. The result is not looked at.
  unfoldable pub send_on : List ℕ → ℕ → Scene → Scene
  unfolding first_or
  send_on cmd fd c =
      let w = c.world in
      let before : Env p = record {
        socket = c.socket;
        kernel = record { answers = first_or [] w.writes; wire = [] };
        pool = c.send_pool;
      } in
      let e = (send_data p cmd before).1 in
      record c {
        socket = e.socket;
        send_pool = e.pool;
        world = record w { writes = drop 1 w.writes; wires = (fd, e.kernel.wire) ∷ w.wires };
      }

  -- "if(s->rc.len()) s->rc.skip(s->rc.len())", and the same of `sc`.
  unfoldable pub drop_caches : Scene → Scene
  drop_caches c =
      let s = c.socket in
      let r =
        if s.rc.data_len == 0 then (s.rc, c.recv_pool) else skip p s.rc.data_len s.rc c.recv_pool in
      let t =
        if s.sc.data_len == 0 then (s.sc, c.send_pool) else skip p s.sc.data_len s.sc c.send_pool in
      record c { socket = record s { rc = r.0; sc = t.0 }; recv_pool = r.1; send_pool = t.1 }

  -- Behind `reconnect`, in `process_request_queue`.
  unfoldable pub watch_again : List ℕ → ℕ → Scene → Scene
  watch_again cmd f c =
      let r = watch_fd f c.world in
      if r.0
      then send_on cmd f (drop_caches (record c { world = r.1 }))
      else record c { socket = record c.socket { fd = none }; world = close_fd f r.1 }

  unfoldable pub after_reconnect : List ℕ → ℤ × Option Socket → Scene → Scene
  after_reconnect cmd (result, none) c = c
  after_reconnect cmd (negsuc n, some s) c = record c { socket = s }
  after_reconnect cmd (pos n, some s) c = elim s.fd [
    | none ↦ record c { socket = s }
    | some f ↦ watch_again cmd f (record c { socket = s })
  ]

  -- From `get_node` on: a socket that is not valid is connected again, and the command is sent.
  unfoldable pub serve_socket : List ℕ → Scene → Scene
  serve_socket cmd c = elim c.socket.fd [
    | some f ↦ send_on cmd f c
    | none ↦
        after_reconnect cmd (reconnect (some c.socket) (first_or none c.world.connects))
          (record c { world = record c.world { connects = drop 1 c.world.connects } })
  ]

  -- The sockets stand in a list, and the ring holds their places.
  pub record Conns : Type 0 where
    pub nodes : NodeMap ℕ
    pub sockets : List Socket
    pub recv_pool : State
    pub send_pool : State
    pub world : World

  -- A step of the socket at a place.
  unfoldable pub at_socket : ℕ → (Scene → Scene) → Conns → Option Conns
  at_socket i step c = elim (get_elem? c.sockets i) [
    | none ↦ none
    | some s ↦
        let r = step (record {
          socket = s;
          recv_pool = c.recv_pool;
          send_pool = c.send_pool;
          world = c.world;
        }) in
        some (record c {
          sockets = set c.sockets i r.socket;
          recv_pool = r.recv_pool;
          send_pool = r.send_pool;
          world = r.world;
        })
  ]

  -- One request: a fault on an empty ring, which `get_node` reads past its end.
  unfoldable pub serve : List ℕ → List ℕ → Conns → Option Conns
  serve key cmd c = elim (get_node key c.nodes) [
    | none ↦ none
    | some i ↦ at_socket i (serve_socket cmd) c
  ]

-- `queue_packet_header_t`: two lengths of four bytes, the least first.
unfoldable pub word : ℕ → List ℕ
word n = (n % 256) ∷ (n / 256 % 256) ∷ (n / 65536 % 256) ∷ (n / 16777216 % 256) ∷ []

unfoldable pub word_at : List ℕ → ℕ
word_at (a ∷ b ∷ c ∷ d ∷ rest) = a + 256 * b + 65536 * c + 16777216 * d
word_at bytes = 0

-- The buffer of `append_cmd`.
abbrev pub cmd_buf_size : ℕ
cmd_buf_size = 1024 * 1024

-- `append_cmd`: `cmd` is what `redisvFormatCommand` makes of the format and the arguments. `none` where the
-- bytes do not fit into `buf`, or the queue never gets to publish the packet.
unfoldable pub append_cmd : Option (List ℕ) → Option (List ℕ) → Queue → Option (ℤ × Queue)
unfolding word
append_cmd none cmd q = some (negsuc 99, q)
append_cmd (some key) none q = some (negsuc 199, q)
append_cmd (some key) (some cmd) q =
    if ltb cmd_buf_size (length key + length cmd)
    then none
    else enqueue ((word (length key) ++ word (length cmd)) ∷ (key ++ cmd) ∷ []) q

-- `*len` of `dequeue`: `DEQUEUE_BUFFER_SIZE` and a header.
abbrev pub dequeue_buf_size : ℕ
dequeue_buf_size = 16777224

module _ (p : Pool) where
  -- The inner loop over the packets of one message; `none` where it reads past the bytes, or where the fuel
  -- is out.
  unfoldable pub serve_packets : ℕ → List ℕ → ℕ → ℕ → Conns p → Option (Conns p)
  serve_packets zero pdata data_len len c = none
  serve_packets (suc fuel) pdata data_len len c =
      let key_len = word_at pdata in
      let cmd_len = word_at (drop 4 pdata) in
      let packet_len = u32 (key_len + cmd_len + 8) in
      elim (ltb data_len len) [
        | false ↦ some c
        | true ↦ elim (ltb (length pdata) (8 + key_len + cmd_len)) [
          | true ↦ none
          | false ↦
              elim (serve p (take key_len (drop 8 pdata))
                (take cmd_len (drop key_len (drop 8 pdata))) c) [
                  | none ↦ none
                  | some c' ↦
                      serve_packets fuel (drop packet_len pdata) (add_u32 data_len packet_len) len
                        c'
                ]
        ]
      ]

  -- `process_request_queue`. `total_len` stays 0, so that the test of the outer loop never ends it.
  unfoldable pub process_request_queue : ℕ → Bool → Queue → Conns p → Option (Queue × Conns p)
  process_request_queue zero has_block q c = none
  process_request_queue (suc fuel) has_block q c = elim (dequeue dequeue_buf_size has_block q) [
    | none ↦ none
    | some (empty, q') ↦ some (q', c)
    | some (lost len, q') ↦ some (q', c)
    | some (got in_block data_, q') ↦
        elim (serve_packets (suc (length data_)) data_ 0 (length data_) c) [
          | none ↦ none
          | some c' ↦ process_request_queue fuel has_block q' c'
        ]
  ]
