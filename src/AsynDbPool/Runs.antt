-- ===== src/AsynDbPool/Runs.antt =====
-- AsynDbConn.cpp: any sequence of calls and callbacks.
use mathlib.Core.Path.{subst}
use functions.Base.{
  ◌≤◌, ◌⊎◌, ◌&&◌, not, false, Bool-cases, ◌==◌, ℕ, ◌+◌, ◌<◌, ◌≡◌, ◌≢◌, refl, sym, ◌∙◌, Bool, List,
  [], ◌∷◌, ◌++◌, Option, none, some, arith, length, length-append, length-set, get_elem?,
  Option-cases, inl, inr,
}
use functions.HashNodes.{get_node}
use functions.HashNodes.Owner.{get_node-none}
use functions.HashNodes.Inside.{Inside-mono, get_node-lt}
use functions.RedisCtx.{db_conn_timeout}
use functions.RedisCtx.Commands.Reconnect.{Ensures, Ensures-map}
use functions.DbBase.{put_vnodes}
use functions.DbBase.Valid.{Linked, put_vnodes-Linked, put_vnodes-ne-nil}
use functions.AsynCtx
use functions.AsynCtx.{
  dangles, is_ok_reply, Asyn, Loop, Reply, new_asyn, set_timeout, set_host, reconn, callback_select,
  callback_cmd_set,
}
use functions.AsynCtx.Balance.{
  is_in-count, count, held_as, TellsOpen, SettlesAfter, reconn-Settles, operation-Settles,
  callback_select-Settles, callback_cmd_set-Settles,
}
use functions.AsynDbPool.Held.{
  AllTellOpen, held_in, AllTellOpen-append, AllTellOpen-set, AllTellOpen-get, held_in-set,
  held_in-append, held_in-le, still_alive, unfreed,
}
use functions.AsynDbPool.{
  always, is_null, disconnects, AsynPool, at, at_key, add, reset, operation, erase_event, AsynEvent,
  adds, resets, operates, answers_select, answers_cmd, erases, no_result, only_pool, happen,
  happen_all, new_pool,
}

-- The ring leads to connections of the pool; a connection says that it is open when it holds a context;
-- each context was handed back as often as it was given, but for the connection that holds it; and no
-- connection holds a context that the library has freed.
pub record IsSettled (p : AsynPool) : Type 0 where
  pub linked : Linked (length p.vec) p.nodes
  pub tells : AllTellOpen p.vec
  pub balance : (x : ℕ) → count x p.loop.given ≡ count x p.loop.dropped + held_in x p.vec
  pub alive : (x : ℕ) → (count x p.loop.freed ≡ 0) ⊎ (held_in x p.vec ≡ 0)

-- The pool is settled and its ring has a node.
abbrev pub Runs : ℕ → AsynPool → Type 0
Runs n p = IsSettled p × (p.nodes ≢ []) × (length p.vec ≡ n)

no_dangling :
    (p : AsynPool) (i : ℕ) (c : Asyn)
    → IsSettled p
    → get_elem? p.vec i ≡ some c
    → dangles c.ctx p.loop.freed ≡ false
no_dangling p i c s e = go c.ctx (λ x. held_in-le x p.vec i c e)
  where
    go : (o : Option ℕ) → ((x : ℕ) → held_as x o ≤ held_in x p.vec) → dangles o p.loop.freed ≡ false
    go none l = refl
    go (some y) l = is_in-count y p.loop.freed (unfreed y _ _ (l y) (s.alive y))

at-Runs :
    (i : ℕ) (uses : Asyn → Bool) (method : Asyn → Loop → Bool × Asyn × Loop) (p : AsynPool)
    → IsSettled p
    → p.nodes ≢ []
    → i < length p.vec
    → ((c : Asyn) → TellsOpen c → SettlesAfter c p.loop (method c p.loop))
    → Ensures (Runs (length p.vec)) (only_pool (at i uses method p))
unfolding at
at-Runs i uses method p s ne lt m =
    let (c, e, t) = AllTellOpen-get p.vec i s.tells lt in
    let r = method c p.loop in
    let k = m c t in
    let sound : (uses c && dangles c.ctx p.loop.freed) ≡ false =
      ground (arith, no_dangling p i c s e) in
    rw (e, at, sound)
      (
        record {
          linked = subst (λ n. Linked n p.nodes) (sym (length-set p.vec i r.1)) s.linked;
          tells = AllTellOpen-set p.vec i r.1 s.tells k.0;
          balance = λ x. omega (arith, (k.1 x).0, s.balance x, held_in-set x p.vec i c r.1 e);
          alive = λ x.
              still_alive (s.alive x) (k.1 x).1 (k.1 x).2 (held_in-le x p.vec i c e)
                (held_in-set x p.vec i c r.1 e);
        },
        ne,
        length-set p.vec i r.1,
      )

at_key-Runs :
    (key : List ℕ) (method : ℕ → Asyn → Loop → Bool × Asyn × Loop) (p : AsynPool)
    → IsSettled p
    → p.nodes ≢ []
    → ((i : ℕ) (c : Asyn) → TellsOpen c → SettlesAfter c p.loop (method i c p.loop))
    → Ensures (Runs (length p.vec)) (only_pool (at_key key method p))
unfolding at_key
at_key-Runs key method p s ne m = elim (Option-cases (get_node key p.nodes)) [
  | inl e ↦ absurd (ne ((get_node-none key p.nodes).0 e))
  | inr (i, e) ↦
      rw (e, at_key)
        (at-Runs i always (method i) p s ne
          (get_node-lt key (length p.vec) p.nodes s.linked.ring s.linked.inside e) (m i))
]

add-Runs :
    (ip : List ℕ) (port any : ℕ) (p : AsynPool)
    → IsSettled p
    → Ensures (Runs (length p.vec + 1)) (only_pool (add ip port any p))
unfolding add set_host set_timeout new_asyn
add-Runs ip port any p s =
    let i = length p.vec in
    let c = set_host ip port 0 (set_timeout db_conn_timeout (new_asyn any)) in
    let longer : length (p.vec ++ (c ∷ [])) ≡ i + 1 = omega (arith, length-append p.vec (c ∷ [])) in
    let grown : AsynPool = record p {
      nodes = put_vnodes 4 0 ip port i p.nodes;
      vec = p.vec ++ (c ∷ []);
    } in
    let settled : IsSettled grown = record {
      linked =
          put_vnodes-Linked 4 0 ip port i (length grown.vec) p.nodes (omega (arith, longer))
            (record {
              ring = s.linked.ring;
              inside = Inside-mono p.nodes (omega (arith, longer)) s.linked.inside;
            });
      tells = AllTellOpen-append p.vec c s.tells refl;
      balance = λ x. omega (arith, s.balance x, held_in-append x p.vec c);
      alive = λ x. elim (s.alive x) [
        | inl z ↦ inl z
        | inr z ↦ inr (omega (arith, held_in-append x p.vec c))
      ];
    } in
    Ensures-map (Runs (length grown.vec)) (Runs (i + 1)) (only_pool (at i always (reconn i) grown))
      (λ r k. (k.0, k.1, k.2 ∙ longer))
      (at-Runs i always (reconn i) grown settled
        (put_vnodes-ne-nil 4 0 ip port i p.nodes (λ e. absurd (omega arith)))
        (omega (arith, longer)) (λ d t. reconn-Settles i d p.loop))

-- How many connections there are behind an event, of `n` before it.
abbrev pub grown_by : AsynEvent → ℕ → ℕ
grown_by (adds ip port any) n = n + 1
grown_by _ n = n

-- A callback gets one of the `n` connections.
abbrev pub IsFrom : ℕ → AsynEvent → Type 0
IsFrom n (answers_select i reply) = i < n
IsFrom n (answers_cmd i reply) = i < n
IsFrom n _ = Unit

abbrev pub AllFrom : ℕ → List AsynEvent → Type 0
AllFrom n [] = Unit
AllFrom n (e ∷ es) = IsFrom n e × AllFrom (grown_by e n) es

-- The library frees a context behind the disconnect callback only when no connection holds it.
abbrev pub IsOrderly : AsynEvent → AsynPool → Type 0
IsOrderly (disconnects x) p = held_in x p.vec ≡ 0
IsOrderly _ p = Unit

abbrev pub Orderly : List AsynEvent → Option AsynPool → Type 0
Orderly [] o = Unit
Orderly (e ∷ es) none = Unit
Orderly (e ∷ es) (some p) = IsOrderly e p × Orderly es (happen e p)

-- The event is no disconnection.
abbrev pub Stays : AsynEvent → Type 0
Stays (disconnects x) = ⊥
Stays _ = Unit

abbrev pub AllStay : List AsynEvent → Type 0
AllStay [] = Unit
AllStay (e ∷ es) = Stays e × AllStay es

Stays-IsOrderly : (e : AsynEvent) (p : AsynPool) → Stays e → IsOrderly e p
Stays-IsOrderly (adds ip port any) p s = tt
Stays-IsOrderly (resets key) p s = tt
Stays-IsOrderly (operates key) p s = tt
Stays-IsOrderly (answers_select i reply) p s = tt
Stays-IsOrderly (answers_cmd i reply) p s = tt
Stays-IsOrderly (erases x) p s = tt
Stays-IsOrderly (disconnects x) p s = absurd s

-- Without disconnections all is in order.
pub AllStay-Orderly : (es : List AsynEvent) (o : Option AsynPool) → AllStay es → Orderly es o
AllStay-Orderly [] o s = tt
AllStay-Orderly (e ∷ es) none s = tt
AllStay-Orderly (e ∷ es) (some p) s = (Stays-IsOrderly e p s.0, AllStay-Orderly es (happen e p) s.1)

freed_one :
    (x y : ℕ) (xs : List ℕ) (cs : List Asyn)
    → held_in x cs ≡ 0
    → (count y xs ≡ 0) ⊎ (held_in y cs ≡ 0)
    → (count y (x ∷ xs) ≡ 0) ⊎ (held_in y cs ≡ 0)
freed_one x y xs cs d a = elim (Bool-cases (y == x)) [
  | inl t ↦ let same : x ≡ y = ground arith in inr (subst (λ z. held_in z cs ≡ 0) same d)
  | inr f ↦ rw f a
]

happen-Runs :
    (e : AsynEvent) (n : ℕ) (p : AsynPool)
    → Runs n p
    → IsFrom n e
    → IsOrderly e p
    → Ensures (Runs (grown_by e n)) (happen e p)
unfolding happen reset operation erase_event
happen-Runs (adds ip port any) n p r f d =
    subst (λ k. Ensures (Runs (k + 1)) (only_pool (add ip port any p))) r.2
      (add-Runs ip port any p r.0)
happen-Runs (resets key) n p r f d =
    subst (λ k. Ensures (Runs k) (only_pool (at_key key reconn p))) r.2
      (at_key-Runs key reconn p r.0 r.1 (λ i c t. reconn-Settles i c p.loop))
happen-Runs (operates key) n p r f d =
    subst (λ k. Ensures (Runs k) (only_pool (at_key key AsynCtx.operation p))) r.2
      (at_key-Runs key AsynCtx.operation p r.0 r.1 (λ i c t. operation-Settles i c p.loop t))
happen-Runs (answers_select i reply) n p r f d =
    let u : Asyn → Bool = λ c. not (is_ok_reply reply) in
    let m : Asyn → Loop → Bool × Asyn × Loop = λ c w. no_result (callback_select reply c w) in
    subst (λ k. Ensures (Runs k) (only_pool (at i u m p))) r.2
      (at-Runs i u m p r.0 r.1 (omega (arith, r.2))
        (λ c t. callback_select-Settles reply c p.loop t))
happen-Runs (answers_cmd i reply) n p r f d =
    let u : Asyn → Bool = λ c. is_null reply in
    let m : Asyn → Loop → Bool × Asyn × Loop = λ c w. no_result (callback_cmd_set reply c w) in
    subst (λ k. Ensures (Runs k) (only_pool (at i u m p))) r.2
      (at-Runs i u m p r.0 r.1 (omega (arith, r.2))
        (λ c t. callback_cmd_set-Settles reply c p.loop t))
happen-Runs (erases x) n p r f d = (
  record { linked = r.0.linked; tells = r.0.tells; balance = r.0.balance; alive = r.0.alive },
  r.1,
  r.2,
)
happen-Runs (disconnects x) n p r f d = (
  record {
    linked = r.0.linked;
    tells = r.0.tells;
    balance = r.0.balance;
    alive = λ y. freed_one x y p.loop.freed p.vec d (r.0.alive y);
  },
  r.1,
  r.2,
)

steps-IsSettled :
    (es : List AsynEvent) (n : ℕ) (o : Option AsynPool)
    → Ensures (Runs n) o
    → AllFrom n es
    → Orderly es o
    → Ensures IsSettled (elim o [ none ↦ none | some p ↦ happen_all es p ])
unfolding happen_all
steps-IsSettled es n none r f d = absurd r
steps-IsSettled [] n (some p) r f d = r.0
steps-IsSettled (e ∷ es) n (some p) r f d =
    steps-IsSettled es (grown_by e n) (happen e p) (happen-Runs e n p r f.0 d.0) f.1 d.1

-- A new pool to which a connection is added runs with no fault through any further calls of the threads
-- and callbacks of the event loop that concern its connections, in any order and with any answers of the
-- library, if the library frees no context that a connection still holds, as it does when a server closes
-- the connection with no command under way. After them its ring leads to its connections, each connection says that it is open when it
-- holds a context, and each context that the library gave was handed back to it as often as it was
-- given, but for the one time less of a connection that holds it; and none that a connection holds has been
-- freed.
pub happen_all-IsSettled :
    (connects : List (Option (ℕ × Bool))) (accepts : List Bool) (ip : List ℕ) (port any : ℕ)
    (es : List AsynEvent)
    → AllFrom 1 es
    → Orderly es (happen (adds ip port any) (new_pool connects accepts))
    → Ensures IsSettled (happen_all (adds ip port any ∷ es) (new_pool connects accepts))
unfolding happen_all happen new_pool
happen_all-IsSettled connects accepts ip port any es f d =
    steps-IsSettled es 1 _
      (add-Runs ip port any (new_pool connects accepts) (record {
        linked = record { ring = tt; inside = tt };
        tells = tt;
        balance = λ x. refl;
        alive = λ x. inl refl;
      }))
      f d
