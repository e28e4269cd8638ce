-- ===== src/DbBase.antt =====
-- redis-pool/src/DbBase.h and DbBase.cpp: `DbBase`, the pool of synchronous connections. A ring node
-- points to a connection; here it is the connection's place in `vec`, since `MAX_REDIS_DB_CNT` is 1 and
-- each array that `m_vec` holds has one element. `none` is a read past the end of the ring or through
-- NULL.
pub mod Valid
pub mod Serve
pub mod Start
mod Tests
use functions.Base.{
  ℕ, zero, suc, ◌+◌, ◌-◌, Bool, true, false, ◌&&◌, List, [], ◌∷◌, ◌++◌, Option, none, some, length,
  get_elem?, set, ◌==◌, if◌then◌else◌, not,
}
use functions.Base.Int.{ℤ, is_positive, pos_part}
use functions.Hiredis.{Hiredis}
use functions.HashNodes.{NodeMap, put_node, get_node}
use functions.RedisConf.{HostInfo, is_empty}
use functions.RedisCtx.{
  Redis, M, gen_key, new_redis, set_timeout, set_host, set_auth_passwd, db_conn_timeout, reconn,
}
use functions.RedisCtx.Commands.{
  operation, operation_cmd, append_cmd, commit, query_debug, del_pattern_keys,
  del_pattern_keys_except,
}

-- `chkPattern`: some byte is neither a blank nor a star.
chk_pattern : List ℕ → Bool
chk_pattern [] = false
chk_pattern (b ∷ bs) =
    let rest = chk_pattern bs in if not (b == 32) && not (b == 42) then true else rest

-- `for (j = 0; j < MAX_VNODE_CNT; j++)`: `n` rounds are left.
pub put_vnodes : ℕ → ℕ → List ℕ → ℕ → ℕ → NodeMap ℕ → NodeMap ℕ
put_vnodes zero j ip port node m = m
put_vnodes (suc n) j ip port node m =
    put_vnodes n (j + 1) ip port node (put_node (gen_key ip port 0 j) node m)

module _ (h : Hiredis) where
  open h use {World, Context, Reply, Args}

  pub record Db : Type 0 where
    pub auth_passwd : List ℕ
    pub nodes : NodeMap ℕ
    pub vec : List (Redis Context)

  unfoldable pub new_db : Db
  new_db = record { auth_passwd = []; nodes = []; vec = [] }

  -- A step on the pool: a fault, or its result, the pool and the world.
  abbrev pub D : Type 0 → Type 0
  D A = Db → World → Option (A × Db × World)

  -- Runs a method of the connection in place `i`.
  abbrev pub at : {A : Type 0} → ℕ → M Context World A → D A
  at i m d w = elim (get_elem? d.vec i) [
    | none ↦ none
    | some c ↦ elim (m c w) [
      | none ↦ none
      | some (a, c', w') ↦ some (a, record d { vec = set d.vec i c' }, w')
    ]
  ]

  -- `getNode(key)`, then a method of the connection. The source's test for NULL never fails: an empty
  -- ring is read past its end before.
  pub at_key : {A : Type 0} → List ℕ → M Context World A → D A
  at_key key m d w = elim (get_node key d.nodes) [ none ↦ none | some i ↦ at i m d w ]

  -- The same method of every connection of `m_vec`, in order: `n` places are left from `i` on.
  pub at_each : {A : Type 0} → ℕ → ℕ → M Context World A → D (Unit {0})
  at_each zero i m d w = some (tt, d, w)
  at_each (suc n) i m d w =
      let rest = at_each n (i + 1) m in
      elim (at i m d w) [ none ↦ none | some (a, d', w') ↦ rest d' w' ]

  abbrev at_all : {A : Type 0} → M Context World A → D (Unit {0})
  at_all m d w = at_each (length d.vec) 0 m d w

  unfoldable pub configure : List ℕ → ℕ → Db → Redis Context
  unfolding new_redis set_timeout set_host set_auth_passwd
  configure ip port d =
      set_auth_passwd d.auth_passwd (set_host ip port 0 (set_timeout db_conn_timeout new_redis))

  -- `add(ip, port)`. The ring gets the node before it is connected.
  unfoldable pub add : List ℕ → ℕ → D Bool
  add ip port d w =
      let i = length d.vec in
      let nodes = put_vnodes 4 0 ip port i d.nodes in
      at i (reconn h) (record d { nodes = nodes; vec = d.vec ++ (configure ip port d ∷ []) }) w

  -- `for (i = 0; i < cnt; i++)`, left at the first failure: `n` rounds are left. The source's `port + i` is
  -- an `int`; the model is right for ports up to 2 ^ 31 - 1, behind which the sum is undefined.
  unfoldable pub add_ports : ℕ → ℕ → List ℕ → D Bool
  add_ports zero port ip d w = some (true, d, w)
  add_ports (suc n) port ip d w =
      let rest = add_ports n (port + 1) ip in
      elim (add ip port d w) [
        | none ↦ none
        | some (true, d', w') ↦ rest d' w'
        | some (false, d', w') ↦ some (false, d', w')
      ]

  -- `add(ip, port, cnt)`
  unfoldable pub add_host : HostInfo → D Bool
  add_host i d w =
      if not (is_empty i.ip) && (is_positive i.port && is_positive i.cnt)
      then add_ports (pos_part i.cnt) (pos_part i.port) i.ip d w
      else some (false, d, w)

  -- The loop of `init`; `ok` is `bOk` so far.
  unfoldable pub add_hosts : Bool → List HostInfo → D Bool
  add_hosts ok [] d w = some (ok, d, w)
  add_hosts ok (i ∷ is) d w =
      let rest = add_hosts true is in
      elim (add_host i d w) [
        | none ↦ none
        | some (true, d', w') ↦ rest d' w'
        | some (false, d', w') ↦ some (false, d', w')
      ]

  -- `init` behind `getConf`: `none` where the file could not be parsed.
  unfoldable pub init : Option (List ℕ × List HostInfo) → D Bool
  init none d w = some (false, d, w)
  init (some (passwd, hosts)) d w = add_hosts false hosts (record d { auth_passwd = passwd }) w

  pub db_operation : List ℕ → Args → D (Option Reply)
  db_operation key args = at_key key (operation h args)

  pub db_operation_cmd : List ℕ → List ℕ → D (Option Reply)
  db_operation_cmd key cmd = at_key key (operation_cmd h cmd)

  pub db_append_cmd : List ℕ → Args → D Bool
  db_append_cmd key args = at_key key (append_cmd h args)

  pub db_commit_key : List ℕ → D Bool
  db_commit_key key = at_key key (commit h)

  pub db_query_debug : List ℕ → List ℕ → D Bool
  db_query_debug key cmd = at_key key (query_debug h cmd)

  pub db_commit : D (Unit {0})
  db_commit = at_all (commit h)

  pub db_del_pattern_keys : List ℕ → D (Unit {0})
  db_del_pattern_keys pattern d w =
      if chk_pattern pattern then at_all (del_pattern_keys h pattern) d w else some (tt, d, w)

  pub db_del_pattern_keys_except : List ℕ → List ℕ → D (Unit {0})
  db_del_pattern_keys_except pattern except d w =
      if chk_pattern pattern
      then at_all (del_pattern_keys_except h pattern except) d w
      else some (tt, d, w)

-- The public operations of a pool that has been set up.
pub data DbCall (Args : Type 0) : Type 0 where
  operates appends : List ℕ → Args → DbCall Args
  operates_cmd queries : List ℕ → List ℕ → DbCall Args
  commits_key : List ℕ → DbCall Args
  commits : DbCall Args
  deletes : List ℕ → DbCall Args
  deletes_except : List ℕ → List ℕ → DbCall Args

module _ (h : Hiredis) where
  open h use {World, Args}

  abbrev pub forget : {A : Type 0} → D h A → D h (Unit {0})
  forget m d w = elim (m d w) [ none ↦ none | some (a, d', w') ↦ some (tt, d', w') ]

  unfoldable pub db_call : DbCall Args → D h (Unit {0})
  db_call (operates key a) d w = forget (db_operation h key a) d w
  db_call (appends key a) d w = forget (db_append_cmd h key a) d w
  db_call (operates_cmd key cmd) d w = forget (db_operation_cmd h key cmd) d w
  db_call (queries key cmd) d w = forget (db_query_debug h key cmd) d w
  db_call (commits_key key) d w = forget (db_commit_key h key) d w
  db_call commits d w = db_commit h d w
  db_call (deletes pattern) d w = db_del_pattern_keys h pattern d w
  db_call (deletes_except pattern except) d w = db_del_pattern_keys_except h pattern except d w

  pub db_run : List (DbCall Args) → D h (Unit {0})
  db_run [] d w = some (tt, d, w)
  db_run (k ∷ ks) d w = elim (db_call k d w) [ none ↦ none | some (a, d', w') ↦ db_run ks d' w' ]
