-- ===== src/Client/Events.antt =====
-- redis_client.cpp: which descriptors epoll watches while the client serves requests and events.
use functions.Base.{
  ℕ, ◌≡◌, ◌≢◌, ◌⊎◌, refl, sym, ap, ◌∙◌, Bool-cases, Option-cases, true, inl, inr, List, [], ◌∷◌,
  Option, none, some, arith, drop,
}
use mathlib.Core.Path.{subst}
use functions.Cache.{Pool}
use functions.SocketSet.{Socket, reconnect}
use functions.SocketSet.Keeps.{send_data-fd}
use functions.Client.{
  World, first_or, without, close_fd, watch_fd, Scene, send_on, drop_caches, watch_again,
  after_reconnect, serve_socket,
}
use functions.Client.Attempts.{reconnected, reconnect-closed, Attempted, serve_socket-Attempted}
use functions.Client.Dispatch.{connect_again, close_socket}

-- `f` is among the descriptors, and it is not.
abbrev pub Has : ℕ → List ℕ → Type 0
Has f [] = ⊥
Has f (g ∷ gs) = (f ≡ g) ⊎ Has f gs

abbrev pub Lacks : ℕ → List ℕ → Type 0
Lacks f [] = Unit
Lacks f (g ∷ gs) = (f ≢ g) × Lacks f gs

-- A descriptor that is not -1 is watched.
abbrev pub IsWatched : Option ℕ → List ℕ → Type 0
IsWatched none gs = Unit
IsWatched (some f) gs = Has f gs

Lacks-without : (f g : ℕ) (gs : List ℕ) → Lacks f gs → Lacks f (without g gs)
Lacks-without f g [] l = tt
Lacks-without f g (x ∷ gs) l = ground (arith, Lacks-without f g gs)

-- A socket's own descriptor, if it has one, is not among them.
abbrev pub LacksOwn : Option ℕ → List ℕ → Type 0
LacksOwn none gs = Unit
LacksOwn (some f) gs = Lacks f gs

-- The descriptor, if there is one, in front of those that were closed.
abbrev pub closed_by : Option ℕ → List ℕ → List ℕ
closed_by none fs = fs
closed_by (some f) fs = f ∷ fs

without-Lacks : (f : ℕ) (gs : List ℕ) → Lacks f (without f gs)
without-Lacks f [] = tt
without-Lacks f (g ∷ gs) = ground (arith, without-Lacks f gs)

module _ (p : Pool) where
  abbrev pub SceneIsWatched : Scene p → Type 0
  SceneIsWatched c = IsWatched c.socket.fd c.world.watched

  send_on-SceneIsWatched :
      (cmd : List ℕ) (fd : ℕ) (c : Scene p) → SceneIsWatched c → SceneIsWatched (send_on p cmd fd c)
  unfolding send_on
  send_on-SceneIsWatched cmd fd c h =
      subst (λ o. IsWatched o c.world.watched) (sym (send_data-fd p cmd _)) h

  watch_fd-Has : (f : ℕ) (w : World) → (watch_fd f w).0 ≡ true → Has f (watch_fd f w).1.watched
  unfolding watch_fd
  watch_fd-Has f w h = ground arith

  watch_again-SceneIsWatched :
      (cmd : List ℕ) (f : ℕ) (c : Scene p)
      → c.socket.fd ≡ some f
      → SceneIsWatched (watch_again p cmd f c)
  unfolding watch_again drop_caches
  watch_again-SceneIsWatched cmd f c e = elim (Bool-cases (watch_fd f c.world).0) [
    | inl added ↦ rw added (
        send_on-SceneIsWatched cmd f (drop_caches p (record c { world = (watch_fd f c.world).1 })) (
          subst (λ o. IsWatched o (watch_fd f c.world).1.watched) (sym e)
            (watch_fd-Has f c.world added)))
    | inr refused ↦ rw refused tt
  ]

  after_reconnect-SceneIsWatched :
      (cmd : List ℕ) (s : Socket) (o : Option ℕ) (c : Scene p)
      → SceneIsWatched (after_reconnect p cmd (reconnected s o) c)
  unfolding after_reconnect
  after_reconnect-SceneIsWatched cmd s none c = tt
  after_reconnect-SceneIsWatched cmd s (some f) c =
      watch_again-SceneIsWatched cmd f (record c { socket = record s { fd = some f } }) refl

  serve_socket_watched :
      (cmd : List ℕ) (c : Scene p) → SceneIsWatched c → SceneIsWatched (serve_socket p cmd c)
  unfolding serve_socket
  serve_socket_watched cmd c h = elim (Option-cases c.socket.fd) [
    | inr (f, e) ↦ rw (e, serve_socket) (send_on-SceneIsWatched cmd f c h)
    | inl e ↦
        let o = first_or none c.world.connects in
        rw (e, serve_socket, reconnect-closed c.socket o e)
          (after_reconnect-SceneIsWatched cmd c.socket o
            (record c { world = record c.world { connects = drop 1 c.world.connects } }))
  ]

  -- Serving a request sends the command on an open socket with `send_data`. A closed one is connected
  -- first: where that fails nothing is written; where `epoll_ctl` fails the new descriptor is closed
  -- again; and else it is watched, and both caches are dropped, before the command is sent. The socket's
  -- descriptor is watched behind it, if it was before or there was none.
  pub serve_socket-SceneIsWatched :
      (cmd : List ℕ) (c : Scene p)
      → SceneIsWatched c
      → Attempted p cmd c (serve_socket p cmd c) × SceneIsWatched (serve_socket p cmd c)
  serve_socket-SceneIsWatched cmd c h =
      (serve_socket-Attempted p cmd c, serve_socket_watched cmd c h)

  connect_again-closed :
      (c : Scene p) (f : ℕ)
      → c.socket.fd ≡ none
      → first_or none c.world.connects ≡ some f
      → ((connect_again p c).socket.fd ≡ some f)
        × ((connect_again p c).world.watched ≡ c.world.watched)
        × ((connect_again p c).world.closed ≡ c.world.closed)
  unfolding connect_again
  connect_again-closed c f closed e =
      let r : reconnect (some c.socket) (first_or none c.world.connects)
          ≡ reconnected c.socket (some f) =
        reconnect-closed c.socket _ closed ∙ ap (reconnected c.socket) e in
      rw (r, connect_again) (refl, refl, refl)

  -- Where the server can be connected to, a close event closes the socket's descriptor, if it has one, and
  -- takes it out of epoll, and the socket gets a new descriptor; that one, which epoll does not know before,
  -- is not watched, so that no event of the socket is seen any more.
  pub close_socket-Lacks :
      (c : Scene p) (f : ℕ)
      → first_or none c.world.connects ≡ some f
      → Lacks f c.world.watched
      → ((close_socket p c).socket.fd ≡ some f)
        × ((close_socket p c).world.closed ≡ closed_by c.socket.fd c.world.closed)
        × LacksOwn c.socket.fd (close_socket p c).world.watched
        × Lacks f (close_socket p c).world.watched
  unfolding close_socket close_fd
  close_socket-Lacks c f e l = go c.socket.fd refl
    where
      go :
          (fd : Option ℕ)
          → c.socket.fd ≡ fd
          → ((close_socket p c).socket.fd ≡ some f)
            × ((close_socket p c).world.closed ≡ closed_by fd c.world.closed)
            × LacksOwn fd (close_socket p c).world.watched
            × Lacks f (close_socket p c).world.watched
      go none o =
          let k = connect_again-closed c f o e in
          rw (o, close_socket) (k.0, k.2, tt, subst (Lacks f) (sym k.1) l)
      go (some g) o =
          let c' : Scene p = record c {
            socket = record c.socket { fd = none };
            world = close_fd g c.world;
          } in
          let k = connect_again-closed c' f refl e in
          rw (o, close_socket)
            (
              k.0,
              k.2,
              subst (Lacks g) (sym k.1) (without-Lacks g c.world.watched),
              subst (Lacks f) (sym k.1) (Lacks-without f g c.world.watched l),
            )
