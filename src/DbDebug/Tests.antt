-- ===== src/DbDebug/Tests.antt =====
-- Tests and witnesses for `DbDebug`.
use functions.Base.{ℕ, ◌≡◌, refl, true, List, [], ◌∷◌, some}
use functions.Base.Int.{pos}
use functions.Printf.{bytes}
use mathlib.Core.Option.{map}
use functions.RedisCtx.Names.{named}
use functions.Hiredis.Script.{scripted, playing}
use functions.RedisConf.{HostInfo}
use functions.RedisCtx.{gen_key, max_vnode_cnt, new_redis, set_timeout, set_host, set_auth_passwd}
use functions.RedisCtx.First.{set_up, reconn_first}
use functions.DbBase.{
  Db, put_vnodes, configure, at, add, add_ports, add_host, add_hosts, init, new_db,
}
use functions.DbDebug.{locate_name, new_debug, debug_init}
use functions.DbDebug.Agree.{node_of, debug_init-Agrees}

abbrev ip : List ℕ
ip = bytes "10.0.0.1"

abbrev one_host : HostInfo
one_host = record { ip = ip; port = pos 6379; cnt = pos 1 }

-- What `init` leaves.
abbrev one_db : Db scripted
one_db = record {
  auth_passwd = [];
  nodes = put_vnodes 4 0 ip 6379 0 [];
  vec = record (set_up (gen_key ip 6379 0 max_vnode_cnt) ip) { ctx = some tt } ∷ [];
}

init_one :
    init scripted (some ([], one_host ∷ [])) (new_db scripted) (playing [])
    ≡ some (true, one_db, record { opened = 1; freed = 0; script = [] })
unfolding init new_db add_hosts add_host add_ports add configure new_redis set_timeout set_host
    set_auth_passwd
init_one =
    rw
      (
        reconn_first (gen_key ip 6379 0 max_vnode_cnt) ip,
        init,
        add_hosts,
        add_host,
        add_ports,
        add,
        at,
      )
      refl

debug_init-Agrees_example :
    (one_db.nodes ≡ (debug_init (some ([], one_host ∷ [])) new_debug).1.nodes)
    × ((key : List ℕ)
        → locate_name key (debug_init (some ([], one_host ∷ [])) new_debug).1
          ≡ map named (node_of scripted key one_db))
debug_init-Agrees_example = debug_init-Agrees scripted [] (one_host ∷ []) (playing []) init_one
