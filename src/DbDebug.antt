-- ===== src/DbDebug.antt =====
-- `DbDebug` of redis-pool/src/DbBase.cpp: the ring without connections, which tells where a key lies. A
-- node is the place of its name.
pub mod Agree
mod Tests
use functions.Base.{
  ℕ, zero, suc, ◌+◌, Bool, true, false, not, ◌&&◌, List, [], ◌∷◌, ◌++◌, Option, none, some, length,
  get_elem?, if◌then◌else◌,
}
use functions.Base.Int.{is_positive, pos_part}
use functions.HashNodes.{NodeMap, get_node}
use functions.RedisConf.{HostInfo, is_empty}
use functions.RedisCtx.{gen_key, max_redis_db_cnt}
use functions.DbBase.{put_vnodes}

pub record Debug : Type 0 where
  pub nodes : NodeMap ℕ
  pub names : List (List ℕ)

abbrev pub new_debug : Debug
new_debug = record { nodes = []; names = [] }

-- `add(ip, port)`
pub debug_add : List ℕ → ℕ → Debug → Debug
debug_add ip port g = record {
  nodes = put_vnodes 4 0 ip port (length g.names) g.nodes;
  names = g.names ++ (gen_key ip port 0 max_redis_db_cnt ∷ []);
}

-- `for (i = 0; i < cnt; i++)`: `n` rounds are left. `port + i` is an `int`, as in `DbBase`.
pub debug_ports : ℕ → ℕ → List ℕ → Debug → Debug
unfolding debug_add
debug_ports zero port ip g = g
debug_ports (suc n) port ip g = debug_ports n (port + 1) ip (debug_add ip port g)

-- `add(ip, port, cnt)`, whose result is not used.
pub debug_host : HostInfo → Debug → Debug
debug_host i g =
    if not (is_empty i.ip) && (is_positive i.port && is_positive i.cnt)
    then debug_ports (pos_part i.cnt) (pos_part i.port) i.ip g
    else g

pub debug_hosts : List HostInfo → Debug → Debug
debug_hosts [] g = g
debug_hosts (i ∷ is) g = debug_hosts is (debug_host i g)

-- `init` behind `getConf`.
pub debug_init : Option (List ℕ × List HostInfo) → Debug → Bool × Debug
unfolding debug_hosts
debug_init none g = (false, g)
debug_init (some (passwd, hosts)) g = (true, debug_hosts hosts g)

-- `locate`: the name that it prints. `none` is a read past the end of the ring.
pub locate_name : List ℕ → Debug → Option (List ℕ)
locate_name key g = elim (get_node key g.nodes) [ none ↦ none | some i ↦ get_elem? g.names i ]
