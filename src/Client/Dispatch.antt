-- ===== src/Client/Dispatch.antt =====
-- redis_client.cpp: how the client starts, and the loop of `dispatch_thread_proc`.
use functions.Base.{
  ℕ, zero, suc, ◌+◌, ◌%◌, Bool, true, false, not, ◌||◌, List, [], ◌∷◌, ◌++◌, Option, none, some,
  length, drop, if◌then◌else◌,
}
use functions.Base.Int.{ℤ, pos, negsuc, pos_part}
use functions.DbBase.{put_vnodes}
use functions.RedisConf.{HostInfo}
use functions.Cache.{Cache, Pool}
use functions.SocketSet.{Socket, Env, reconnect, send_data_cache, recv_data}
use functions.Queue.{Memory, Queue}
use functions.Queue
use functions.Client.{
  World, first_or, close_fd, watch_fd, Scene, Conns, at_socket, process_request_queue,
}

-- `epoll_event`: the flags that are looked at, and the place of the socket.
pub record Event : Type 0 where
  pub can_read : Bool
  pub can_write : Bool
  pub hung_up : Bool
  pub place : ℕ

module _ (p : Pool) where
  abbrev with_world : World → Scene p → Scene p
  with_world w c = record c { world = w }

  -- What `reconnect` did. Its result is never more than 0, so that no branch of the code adds the socket
  -- to epoll again.
  unfoldable pub connect_again : Scene p → Scene p
  connect_again c =
      let r = reconnect (some c.socket) (first_or none c.world.connects) in
      let w = record c.world { connects = drop 1 c.world.connects } in
      elim r.1 [ none ↦ with_world w c | some s ↦ record c { socket = s; world = w } ]

  -- `__CLOSE`
  unfoldable pub close_socket : Scene p → Scene p
  close_socket c = elim c.socket.fd [
    | none ↦ connect_again c
    | some f ↦
        connect_again
          (record c { socket = record c.socket { fd = none }; world = close_fd f c.world })
  ]

  is_failure : ℤ → Bool
  is_failure (pos n) = false
  is_failure (negsuc n) = true

  -- `EPOLLIN`
  unfoldable pub receive : Scene p → Scene p
  unfolding is_failure first_or close_socket
  receive c =
      let r = recv_data p c.socket (first_or [] c.world.reads) c.recv_pool in
      let w = record c.world { reads = drop 1 c.world.reads } in
      let c' : Scene p = record c { socket = r.1; recv_pool = r.2; world = w } in
      if is_failure r.0 then close_socket c' else c'

  -- `close(s->fd)` where `send_data_cache` failed: `fd` keeps its value.
  unfoldable pub close_early : Scene p → Scene p
  unfolding close_fd
  close_early c = elim c.socket.fd [ none ↦ c | some f ↦ record c { world = close_fd f c.world } ]

  -- `EPOLLOUT`
  unfoldable pub flush : Scene p → Scene p
  unfolding is_failure first_or close_socket close_early
  flush c =
      let w = record c.world { sockopts = drop 1 c.world.sockopts } in
      let before : Env p = record {
        socket = c.socket;
        kernel = record { answers = first_or [] w.writes; wire = [] };
        pool = c.send_pool;
      } in
      let r = send_data_cache p before in
      let w' = record w { writes = drop 1 w.writes } in
      let c' : Scene p = record c { socket = r.1.socket; send_pool = r.1.pool; world = w' } in
      if first_or false c.world.sockopts
      then (if is_failure r.0 then close_socket (close_early c') else c')
      else close_socket (with_world w c)

  unfoldable pub on_event : Event → Scene p → Scene p
  unfolding receive flush close_socket
  on_event e c =
      if e.can_read
      then receive c
      else if e.can_write
      then flush c
      else if e.hung_up
      then close_socket c
      else c

  unfoldable pub handle_events : List Event → Conns p → Option (Conns p)
  unfolding on_event
  handle_events [] c = some c
  handle_events (e ∷ es) c = elim (at_socket p e.place (on_event e) c) [
    | none ↦ none
    | some c' ↦ handle_events es c'
  ]

  -- The loop, for the events that `epoll_wait` gives in each round; a failed call gives none.
  unfoldable pub dispatch :
      ℕ → Bool → List (List Event) → Queue → Conns p → Option (Queue × Conns p)
  dispatch fuel has_block [] q c = some (q, c)
  dispatch fuel has_block (es ∷ rounds) q c = elim (process_request_queue p fuel has_block q c) [
    | none ↦ none
    | some (q', c') ↦ elim (handle_events es c') [
      | none ↦ none
      | some c'' ↦ dispatch fuel has_block rounds q' c''
    ]
  ]

  -- `add`, with the block and the address of the new socket. `epoll_ctl` fails for the descriptor -1.
  unfoldable pub add : Cache → ℕ → List ℕ → ℕ → Conns p → ℤ × Conns p
  unfolding first_or watch_fd close_fd
  add blank ip_number ip port c =
      let w = record c.world { connects = drop 1 c.world.connects } in
      let s : Socket = record {
        rc = blank;
        sc = blank;
        ip = ip_number;
        fd = first_or none c.world.connects;
        port = port % 65536;
      } in
      elim s.fd [
        | none ↦ (negsuc 1, record c { world = w })
        | some f ↦
            let r = watch_fd f w in
            if r.0
            then (
              pos 0,
              record c {
                nodes = put_vnodes 4 0 ip port (length c.sockets) c.nodes;
                sockets = c.sockets ++ (s ∷ []);
                world = r.1;
              },
            )
            else (negsuc 1, record c { world = close_fd f r.1 })
      ]

  -- The loops of `init_node`, over what `getHosts` gives; `rounds` ports are left. The result of `parse` is
  -- not looked at.
  pub add_ports : ℕ → Cache → ℕ → List ℕ → ℕ → Conns p → ℤ × Conns p
  unfolding is_failure
  add_ports zero blank ip_number ip port c = (pos 0, c)
  add_ports (suc rounds) blank ip_number ip port c =
      let r = add blank ip_number ip port c in
      let rest = add_ports rounds blank ip_number ip (port + 1) r.1 in
      if is_failure r.0 then (negsuc 0, r.1) else rest

  pub init_node : Cache → (List ℕ → ℕ) → List HostInfo → Conns p → ℤ × Conns p
  unfolding is_failure
  init_node blank strip2int [] c = (pos 0, c)
  init_node blank strip2int (h ∷ hs) c =
      let r = add_ports (pos_part h.cnt) blank (strip2int h.ip) h.ip (pos_part h.port) c in
      let rest = init_node blank strip2int hs r.1 in
      if is_failure r.0 then (negsuc 0, r.1) else rest

-- What `init` asks of the system: `epoll_create`, the blocks for the events and for the queue, the two
-- pools, and `pthread_create`.
pub record Starts : Type 0 where
  pub epoll : Bool
  pub events : Bool
  pub block : Option Memory
  pub send_pool : Bool
  pub recv_pool : Bool
  pub thread : Bool

module _ (p : Pool) where
  pub init : Starts → Cache → (List ℕ → ℕ) → List HostInfo → Queue → Conns p → ℤ × Queue × Conns p
  unfolding is_failure
  init st blank strip2int hosts q c =
      let n = init_node p blank strip2int hosts c in
      let r = Queue.init st.block 134217728 false q in
      if not st.epoll
      then (negsuc 0, q, c)
      else if is_failure p n.0
      then (negsuc 0, q, n.1)
      else if not st.events
      then (negsuc 0, q, n.1)
      else if is_failure p r.0
      then (negsuc 0, r.1, n.1)
      else if not st.send_pool || (not st.recv_pool || not st.thread)
      then (negsuc 0, r.1, n.1)
      else (pos 0, r.1, n.1)
