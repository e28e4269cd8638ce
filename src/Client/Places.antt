-- ===== src/Client/Places.antt =====
-- redis_client.cpp: the socket of a key.
use functions.Base.{
  ℕ, ◌≡◌, refl, sym, ap, ◌∙◌, List, Option, none, some, get_elem?, set, Option-cases, inl, inr,
}
use functions.HashNodes.{get_node}
use functions.Cache.{Pool}
use functions.SocketSet.{Socket}
use functions.Client.Attempts.{Attempted}
use functions.Client.{Scene, serve_socket, Conns, at_socket, serve}

nothing_found : {A : Type 0} {a : A} → none ≡ some a → ⊥
nothing_found h = cc

module _ (p : Pool) where
  -- A socket of the client with the pools and the system.
  abbrev pub scene_of : Conns p → Socket → Scene p
  scene_of c s = record {
    socket = s;
    recv_pool = c.recv_pool;
    send_pool = c.send_pool;
    world = c.world;
  }

  -- The socket at the place is changed, and the pools and the system with it.
  abbrev pub placed : ℕ → Scene p → Conns p → Conns p
  placed i d c = record c {
    sockets = set c.sockets i d.socket;
    recv_pool = d.recv_pool;
    send_pool = d.send_pool;
    world = d.world;
  }

  -- The socket to which the ring leads for a key, with its place.
  abbrev pub socket_at : Conns p → Option ℕ → Option (ℕ × Socket)
  socket_at c none = none
  socket_at c (some i) = elim (get_elem? c.sockets i) [ none ↦ none | some s ↦ some (i, s) ]

  unfoldable pub socket_of : List ℕ → Conns p → Option (ℕ × Socket)
  socket_of key c = socket_at c (get_node key c.nodes)

  -- One request: it is attempted on the socket that was found, and no other socket changes. A fault where
  -- the ring is empty or leads to no socket.
  abbrev pub ServedOn :
      List ℕ → Conns p → Option (Conns p) → (Conns p → Type 0) → Option (ℕ × Socket) → Type 0
  ServedOn cmd c o rest none = o ≡ none
  ServedOn cmd c o rest (some (i, s)) =
      (d : Scene p) × Attempted p cmd (scene_of c s) d × rest (placed i d c)

  serve-placed :
      (key cmd : List ℕ) (c : Conns p) (i : ℕ) (s : Socket)
      → get_node key c.nodes ≡ some i
      → get_elem? c.sockets i ≡ some s
      → serve p key cmd c ≡ some (placed i (serve_socket p cmd (scene_of c s)) c)
  unfolding serve at_socket
  serve-placed key cmd c i s e f = rw (e, serve, f, at_socket) refl

  serve_lost :
      (key cmd : List ℕ) (c : Conns p) → get_node key c.nodes ≡ none → serve p key cmd c ≡ none
  unfolding serve
  serve_lost key cmd c e = rw (e, serve) refl

  serve_missing :
      (key cmd : List ℕ) (c : Conns p) (i : ℕ)
      → get_node key c.nodes ≡ some i
      → get_elem? c.sockets i ≡ none
      → serve p key cmd c ≡ none
  unfolding serve at_socket
  serve_missing key cmd c i e f = rw (e, serve, f, at_socket) refl

  at_missing : (c : Conns p) (k : ℕ) → get_elem? c.sockets k ≡ none → socket_at c (some k) ≡ none
  at_missing c k m = rw (m, socket_at) refl

  at_found :
      (c : Conns p) (k : ℕ) (t : Socket)
      → get_elem? c.sockets k ≡ some t
      → socket_at c (some k) ≡ some (k, t)
  at_found c k t m = rw (m, socket_at) refl

  pub serve-found :
      (key cmd : List ℕ) (c : Conns p) (i : ℕ) (s : Socket)
      → socket_of key c ≡ some (i, s)
      → serve p key cmd c ≡ some (placed i (serve_socket p cmd (scene_of c s)) c)
  unfolding socket_of
  serve-found key cmd c i s e = elim (Option-cases (get_node key c.nodes)) [
    | inl n ↦ absurd (nothing_found (ap (socket_at c) (sym n) ∙ e))
    | inr (k, n) ↦ elim (Option-cases (get_elem? c.sockets k)) [
      | inl m ↦ absurd (nothing_found (sym (at_missing c k m) ∙ (ap (socket_at c) (sym n) ∙ e)))
      | inr (t, m) ↦
          let same : some (k, t) ≡ some (i, s) =
            sym (at_found c k t m) ∙ (ap (socket_at c) (sym n) ∙ e) in
          serve-placed key cmd c k t n m
          ∙ ap
              (λ o. elim o as (λ _. Option (Conns p)) [
                | none ↦ none
                | some q ↦ some (placed q.0 (serve_socket p cmd (scene_of c q.1)) c)
              ])
              same
    ]
  ]

  pub serve-not_found :
      (key cmd : List ℕ) (c : Conns p) → socket_of key c ≡ none → serve p key cmd c ≡ none
  unfolding socket_of
  serve-not_found key cmd c e = elim (Option-cases (get_node key c.nodes)) [
    | inl n ↦ serve_lost key cmd c n
    | inr (k, n) ↦ elim (Option-cases (get_elem? c.sockets k)) [
      | inl m ↦ serve_missing key cmd c k n m
      | inr (t, m) ↦ absurd (nothing_found (sym e ∙ (ap (socket_at c) n ∙ at_found c k t m)))
    ]
  ]
