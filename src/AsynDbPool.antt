-- ===== src/AsynDbPool.antt =====
-- redis-pool/src/AsynDbConn.h and AsynDbConn.cpp: `AsynDbPool`, the ring of asynchronous connections. A ring
-- node is the connection's place in `vec`. `none` is a read past the end of the ring, or of a connection
-- that is not there.
mod Held
pub mod Runs
mod Tests
use functions.Base.{
  ℕ, zero, suc, ◌+◌, Bool, true, false, not, ◌&&◌, if◌then◌else◌, List, [], ◌∷◌, ◌++◌, Option, none,
  some, length, get_elem?, set,
}
use functions.HashNodes.{NodeMap, get_node}
use functions.RedisCtx.{Status, db_conn_timeout}
use functions.DbBase.{put_vnodes}
use functions.AsynCtx
use functions.AsynCtx.{
  dangles, is_ok_reply, Asyn, Loop, Reply, new_asyn, set_timeout, set_host, reconn, find_data,
  erase_data, callback_select, callback_cmd_set,
}

pub record AsynPool : Type 0 where
  pub nodes : NodeMap ℕ
  pub vec : List Asyn
  pub loop : Loop

-- Runs a method of the connection at a place; `uses` says whether it reads what `ctx` points to, which
-- faults where the library has freed that.
unfoldable pub at :
    ℕ → (Asyn → Bool) → (Asyn → Loop → Bool × Asyn × Loop) → AsynPool → Option (Bool × AsynPool)
at i uses method p = elim (get_elem? p.vec i) [
  | none ↦ none
  | some c ↦
      let r = method c p.loop in
      if uses c && dangles c.ctx p.loop.freed
      then none
      else some (r.0, record p { vec = set p.vec i r.1; loop = r.2 })
]

-- The method has a context to give back or to send a command on.
abbrev pub always : Asyn → Bool
always c = true

unfoldable pub at_key :
    List ℕ → (ℕ → Asyn → Loop → Bool × Asyn × Loop) → AsynPool → Option (Bool × AsynPool)
at_key key method p = elim (get_node key p.nodes) [
  | none ↦ none
  | some i ↦ at i always (method i) p
]

-- `add`. The ring gets the node before it is connected. `any` is what the constructor leaves in `m_index`.
unfoldable pub add : List ℕ → ℕ → ℕ → AsynPool → Option (Bool × AsynPool)
add ip port any p =
    let i = length p.vec in
    let c = set_host ip port 0 (set_timeout db_conn_timeout (new_asyn any)) in
    at i always (reconn i)
      (record p { nodes = put_vnodes 4 0 ip port i p.nodes; vec = p.vec ++ (c ∷ []) })

unfoldable pub reset : List ℕ → AsynPool → Option (Bool × AsynPool)
reset key p = at_key key reconn p

unfoldable pub operation : List ℕ → AsynPool → Option (Bool × AsynPool)
operation key p = at_key key AsynCtx.operation p

-- `getStatus`
unfoldable pub get_status : List ℕ → AsynPool → Option Status
get_status key p = elim (get_node key p.nodes) [
  | none ↦ none
  | some i ↦ elim (get_elem? p.vec i) [ none ↦ none | some c ↦ some c.status ]
]

unfoldable pub find_of : ℕ → AsynPool → Option ℕ
find_of x p = find_data x p.loop.datas

unfoldable pub erase_event : ℕ → AsynPool → AsynPool
erase_event x p = record p { loop = record p.loop { datas = erase_data x p.loop.datas } }

-- What a thread calls, and what the event loop calls back, with the place of the object that it was
-- given. `disconnects` is `disconnectCallback`, which prints, and the freeing of the context by the library
-- behind it: after the object has handed it back, or when the server closes the connection.
pub data AsynEvent : Type 0 where
  adds : List ℕ → ℕ → ℕ → AsynEvent
  resets operates : List ℕ → AsynEvent
  answers_select answers_cmd : ℕ → Option Reply → AsynEvent
  erases : ℕ → AsynEvent
  disconnects : ℕ → AsynEvent

abbrev pub no_result : Asyn × Loop → Bool × Asyn × Loop
no_result r = (true, r.0, r.1)

abbrev pub only_pool : Option (Bool × AsynPool) → Option AsynPool
only_pool none = none
only_pool (some (b, p)) = some p

abbrev pub is_null : Option Reply → Bool
is_null none = true
is_null (some r) = false

unfoldable pub happen : AsynEvent → AsynPool → Option AsynPool
happen (adds ip port any) p = only_pool (add ip port any p)
happen (resets key) p = only_pool (reset key p)
happen (operates key) p = only_pool (operation key p)
happen (answers_select i reply) p =
    only_pool (at i (λ c. not (is_ok_reply reply)) (λ c w. no_result (callback_select reply c w)) p)
happen (answers_cmd i reply) p =
    only_pool (at i (λ c. is_null reply) (λ c w. no_result (callback_cmd_set reply c w)) p)
happen (erases x) p = some (erase_event x p)
happen (disconnects x) p = some (record p { loop = record p.loop { freed = x ∷ p.loop.freed } })

unfoldable pub happen_all : List AsynEvent → AsynPool → Option AsynPool
happen_all [] p = some p
happen_all (e ∷ es) p = elim (happen e p) [ none ↦ none | some p' ↦ happen_all es p' ]

-- A new pool, before the library's answers.
unfoldable pub new_pool : List (Option (ℕ × Bool)) → List Bool → AsynPool
new_pool connects accepts = record {
  nodes = [];
  vec = [];
  loop = record {
    connects = connects;
    accepts = accepts;
    given = [];
    dropped = [];
    datas = [];
    freed = [];
  };
}
