-- ===== src/Client/Attempts.antt =====
-- redis_client.cpp: what serving a request does to the socket of its key.
use functions.Base.{
  ℕ, ◌≡◌, refl, sym, ap, ◌∙◌, Bool, true, false, List, [], ◌∷◌, Option, none, some, arith, drop,
  ◌==◌, if◌then◌else◌, Bool-cases, inl, inr,
}
use mathlib.Core.Path.{subst}
use functions.Base.Int.{ℤ, pos, negsuc}
use functions.Cache.{Pool, Cache, skip}
use functions.Cache.Dropped.{Dropped, skip-Dropped}
use functions.SocketSet.{Socket, Env, reconnect, send_data}
use functions.Client.{
  first_or, without, close_fd, watch_fd, Scene, send_on, drop_caches, watch_again, after_reconnect,
  serve_socket,
}

-- What `reconnect` gives for a socket that is closed.
abbrev pub reconnected : Socket → Option ℕ → ℤ × Option Socket
reconnected s none = (negsuc 0, some (record s { fd = none }))
reconnected s (some f) = (pos 0, some (record s { fd = some f }))

pub reconnect-closed :
    (s : Socket) (o : Option ℕ) → s.fd ≡ none → reconnect (some s) o ≡ reconnected s o
unfolding reconnect
reconnect-closed s none e = rw (e, reconnect)
reconnect-closed s (some f) e = rw (e, reconnect)

module _ (p : Pool) where
  -- `send_data` of the command on the socket, whose bytes go to the descriptor `fd`.
  abbrev pub Sends : List ℕ → ℕ → Scene p → Scene p → Type 0
  Sends cmd fd c c' =
      let before : Env p = record {
        socket = c.socket;
        kernel = record { answers = first_or [] c.world.writes; wire = [] };
        pool = c.send_pool;
      } in
      (c'.socket ≡ (send_data p cmd before).1.socket)
      × (c'.send_pool ≡ (send_data p cmd before).1.pool)
      × (c'.world.wires ≡ (fd, (send_data p cmd before).1.kernel.wire) ∷ c.world.wires)
      × (c'.world.watched ≡ c.world.watched)

  -- The socket stays closed, and nothing is written.
  abbrev pub StaysClosed : Scene p → Scene p → Type 0
  StaysClosed c c' = (c'.socket.fd ≡ none) × (c'.world.wires ≡ c.world.wires)

  -- Between the connection and the command: `f` is watched, and both caches are dropped.
  abbrev pub IsReady : ℕ → Scene p → Scene p → Type 0
  IsReady f c d =
      (d.socket.fd ≡ some f)
      × (d.world.watched ≡ f ∷ c.world.watched)
      × (d.world.wires ≡ c.world.wires)
      × Dropped d.socket.rc
      × Dropped d.socket.sc

  -- By the descriptor of the socket, the answer of `tcp_connect_server` and that of `epoll_ctl`.
  abbrev pub AttemptedBy : List ℕ → Scene p → Scene p → Option ℕ → Option ℕ → Bool → Type 0
  AttemptedBy cmd c c' (some f) connect control = Sends cmd f c c'
  AttemptedBy cmd c c' none none control =
      StaysClosed c c' × (c'.world.closed ≡ c.world.closed) × (c'.world.watched ≡ c.world.watched)
  AttemptedBy cmd c c' none (some f) false =
      StaysClosed c c'
      × (c'.world.closed ≡ f ∷ c.world.closed)
      × (c'.world.watched ≡ without f c.world.watched)
  AttemptedBy cmd c c' none (some f) true = (d : Scene p) × IsReady f c d × Sends cmd f d c'

  abbrev pub Attempted : List ℕ → Scene p → Scene p → Type 0
  Attempted cmd c c' =
      AttemptedBy cmd c c' c.socket.fd (first_or none c.world.connects)
        (first_or false c.world.controls)

  send_on-Sends : (cmd : List ℕ) (fd : ℕ) (c : Scene p) → Sends cmd fd c (send_on p cmd fd c)
  unfolding send_on first_or
  send_on-Sends cmd fd c = (refl, refl, refl, refl)

  drop_caches-Dropped :
      (c : Scene p) → Dropped (drop_caches p c).socket.rc × Dropped (drop_caches p c).socket.sc
  unfolding drop_caches
  drop_caches-Dropped c = (half c.socket.rc c.recv_pool, half c.socket.sc c.send_pool)
    where
      half :
          (k : Cache) (m : p.State)
          → let r : Cache × p.State = if k.data_len == 0 then (k, m) else skip p k.data_len k m in
            Dropped r.0
      half k m = elim (Bool-cases (k.data_len == 0)) [
        | inl t ↦ rw t (inl (ground arith))
        | inr f ↦ rw f (skip-Dropped p k m)
      ]

  watch_again-AttemptedBy :
      (cmd : List ℕ) (f : ℕ) (c c0 : Scene p) (b : Bool)
      → first_or false c.world.controls ≡ b
      → c.socket.fd ≡ some f
      → c.world.wires ≡ c0.world.wires
      → c.world.watched ≡ c0.world.watched
      → c.world.closed ≡ c0.world.closed
      → AttemptedBy cmd c0 (watch_again p cmd f c) none (some f) b
  unfolding watch_again watch_fd close_fd drop_caches
  watch_again-AttemptedBy cmd f c c0 true e o a w k =
      let added : Scene p = record c {
        world = record c.world {
          controls = drop 1 c.world.controls;
          watched = f ∷ c.world.watched;
        };
      } in
      let dropped = drop_caches-Dropped added in
      rw (e, watch_again)
        (
          drop_caches p added,
          (o, ap (λ l. f ∷ l) w, a, dropped.0, dropped.1),
          send_on-Sends cmd f (drop_caches p added),
        )
  watch_again-AttemptedBy cmd f c c0 false e o a w k =
      rw (e, watch_again) ((refl, a), ap (λ l. f ∷ l) k, ap (without f) w)

  after_reconnect-AttemptedBy :
      (cmd : List ℕ) (s : Socket) (o : Option ℕ) (c c0 : Scene p)
      → c.world.controls ≡ c0.world.controls
      → c.world.wires ≡ c0.world.wires
      → c.world.watched ≡ c0.world.watched
      → c.world.closed ≡ c0.world.closed
      → AttemptedBy cmd c0
          (after_reconnect p cmd (reconnected s o) c)
          none
          o
          (first_or false c0.world.controls)
  unfolding after_reconnect
  after_reconnect-AttemptedBy cmd s none c c0 t a w k = ((refl, a), k, w)
  after_reconnect-AttemptedBy cmd s (some f) c c0 t a w k =
      watch_again-AttemptedBy cmd f (record c { socket = record s { fd = some f } }) c0
        (first_or false c0.world.controls) (ap (first_or false) t) refl a w k

  serve_socket-open :
      (cmd : List ℕ) (c : Scene p) (f : ℕ)
      → c.socket.fd ≡ some f
      → serve_socket p cmd c ≡ send_on p cmd f c
  unfolding serve_socket
  serve_socket-open cmd c f e =
      ap
        (λ o. elim o as (λ _. Scene p) [
          | some g ↦ send_on p cmd g c
          | none ↦
              after_reconnect p cmd (reconnect (some c.socket) (first_or none c.world.connects))
                (record c { world = record c.world { connects = drop 1 c.world.connects } })
        ])
        e

  serve_socket-closed :
      (cmd : List ℕ) (c : Scene p)
      → c.socket.fd ≡ none
      → serve_socket p cmd c
        ≡ after_reconnect p cmd
            (reconnected c.socket (first_or none c.world.connects))
            (record c { world = record c.world { connects = drop 1 c.world.connects } })
  unfolding serve_socket
  serve_socket-closed cmd c e =
      ap
        (λ o. elim o as (λ _. Scene p) [
          | some g ↦ send_on p cmd g c
          | none ↦
              after_reconnect p cmd (reconnect (some c.socket) (first_or none c.world.connects))
                (record c { world = record c.world { connects = drop 1 c.world.connects } })
        ])
        e
      ∙ ap
          (λ r.
            after_reconnect p cmd r
              (record c { world = record c.world { connects = drop 1 c.world.connects } }))
          (reconnect-closed c.socket (first_or none c.world.connects) e)

  -- `serve_socket` on each of its branches.
  pub serve_socket-Attempted : (cmd : List ℕ) (c : Scene p) → Attempted cmd c (serve_socket p cmd c)
  serve_socket-Attempted cmd c = go c.socket.fd refl
    where
      go :
          (fd : Option ℕ)
          → c.socket.fd ≡ fd
          → AttemptedBy cmd c
              (serve_socket p cmd c)
              fd
              (first_or none c.world.connects)
              (first_or false c.world.controls)
      go (some f) e =
          subst (λ c'. Sends cmd f c c') (sym (serve_socket-open cmd c f e)) (send_on-Sends cmd f c)
      go none e =
          let o = first_or none c.world.connects in
          subst (λ c'. AttemptedBy cmd c c' none o (first_or false c.world.controls))
            (sym (serve_socket-closed cmd c e))
            (after_reconnect-AttemptedBy cmd c.socket o
              (record c { world = record c.world { connects = drop 1 c.world.connects } }) c refl
              refl refl refl)
