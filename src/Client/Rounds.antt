-- ===== src/Client/Rounds.antt =====
-- redis_client.cpp: rounds of the loop of the client's thread.
use functions.Base.{ℕ, ◌<◌, ◌≡◌, ◌≢◌, Bool, List, [], ◌∷◌, Option, none, some, length}
use functions.DbBase.Valid.{Linked}
use functions.RedisCtx.Commands.Reconnect.{Ensures}
use functions.Cache.{Pool}
use functions.Queue.{Queue}
use functions.Queue.Segments.{Holds}
use functions.Client.{Conns}
use functions.Client.Dispatch.{Event, dispatch}

-- Each event is one of a socket that is there.
abbrev pub AreFrom : ℕ → List Event → Type 0
AreFrom n [] = Unit
AreFrom n (e ∷ es) = (e.place < n) × AreFrom n es

abbrev pub AllAreFrom : ℕ → List (List Event) → Type 0
AllAreFrom n [] = Unit
AllAreFrom n (es ∷ rounds) = AreFrom n es × AllAreFrom n rounds

module _ (p : Pool) where
  -- The client has `n` sockets, and its ring has a node and leads to them.
  pub record Routes (n : ℕ) (c : Conns p) : Type 0 where
    pub linked : Linked n c.nodes
    pub has_nodes : c.nodes ≢ []
    pub count : length c.sockets ≡ n

  -- Behind a round: the queue is empty, and the sockets and the ring are as they should be.
  abbrev pub Emptied : ℕ → Queue × Conns p → Type 0
  Emptied n r = Holds r.0 [] × Routes n r.1

  -- What the rest of the loop does behind the events of a round.
  Continues : ℕ → ℕ → Bool → List (List Event) → Type 0
  Continues n fuel has_block rounds =
      (q : Queue) (o : Option (Conns p))
      → Holds q []
      → Ensures (Routes n) o
      → Ensures (Emptied n) (elim o [ none ↦ none | some c ↦ dispatch p fuel has_block rounds q c ])
