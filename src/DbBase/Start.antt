-- ===== src/DbBase/Start.antt =====
-- DbBase.cpp: what `init` leaves of a new pool.
use functions.Base.{
  ℕ, zero, suc, ◌+◌, ◌≡◌, ◌≢◌, refl, sym, ◌∙◌, Bool, true, false, List, [], ◌∷◌, ◌++◌, Option, none,
  some, arith, length, length-append, Bool-cases, inl, inr, not, ◌&&◌,
}
use functions.Base.Int.{is_positive, pos_part}
use functions.Hiredis.{Hiredis}
use functions.HashNodes.Inside.{Inside-mono}
use functions.RedisConf.{HostInfo, is_empty}
use functions.RedisCtx.{Redis, reconn}
use functions.RedisCtx.Commands.Reconnect.{
  Ensures, Ensures-map, IsValid, IsFresh-IsValid, reconn-IsFresh,
}
use functions.RedisCtx.Commands.Valid.{Safe}
use functions.DbBase.{
  Db, at, put_vnodes, configure, add, add_ports, add_host, add_hosts, init, new_db,
}
use functions.DbBase.Valid.{
  AllIsValid-append, put_vnodes-Linked, put_vnodes-ne-nil, IsValidDb, Kept, at-Kept,
}

module _ (h : Hiredis) where
  open h use {World, Context}

  -- The pool is valid and has a node.
  abbrev Serving : Bool × Db h × World → Type 0
  Serving r = IsValidDb h r.1 × (r.1.nodes ≢ [])

  -- The pool is valid, and has a node if the step succeeded.
  abbrev pub Started : Bool × Db h × World → Type 0
  Started r = IsValidDb h r.1 × (r.0 ≡ true → r.1.nodes ≢ [])

  reconn_safe : (c : Redis Context) → IsValid c → (w : World) → Safe h (reconn h) c w
  reconn_safe c v w =
      Ensures-map _ (λ r. IsValid r.1) (reconn h c w) (λ r. IsFresh-IsValid) (reconn-IsFresh h c w)

  configure-IsValid : (ip : List ℕ) (port : ℕ) (d : Db h) → IsValid (configure h ip port d)
  unfolding configure
  configure-IsValid ip port d = ground arith

  add-Serving :
      (ip : List ℕ) (port : ℕ) (d : Db h) (w : World)
      → IsValidDb h d
      → Ensures Serving (add h ip port d w)
  unfolding add
  add-Serving ip port d w v =
      Ensures-map (Kept h grown) Serving (at h (length d.vec) (reconn h) grown w)
        (λ r k. (k.0, λ e. filled (sym k.1 ∙ e)))
        (at-Kept h (length d.vec) (reconn h) grown w grown_valid (omega (arith, longer))
          reconn_safe)
    where
      grown : Db h
      grown = record d {
        nodes = put_vnodes 4 0 ip port (length d.vec) d.nodes;
        vec = d.vec ++ (configure h ip port d ∷ []);
      }

      longer : length grown.vec ≡ length d.vec + 1
      longer = length-append d.vec (configure h ip port d ∷ [])

      filled : grown.nodes ≢ []
      filled = put_vnodes-ne-nil 4 0 ip port (length d.vec) d.nodes (λ e. absurd (omega arith))

      grown_valid : IsValidDb h grown
      grown_valid = record {
        linked =
            put_vnodes-Linked 4 0 ip port (length d.vec) (length grown.vec) d.nodes
              (omega (arith, longer))
              (record {
                ring = v.linked.ring;
                inside = Inside-mono d.nodes (omega (arith, longer)) v.linked.inside;
              });
        valid = AllIsValid-append d.vec _ v.valid (configure-IsValid ip port d);
      }

  add_ports-Serving :
      (n port : ℕ) (ip : List ℕ) (d : Db h) (w : World)
      → IsValidDb h d
      → (n ≡ 0 → d.nodes ≢ [])
      → Ensures Serving (add_ports h n port ip d w)
  unfolding add_ports
  add_ports-Serving zero port ip d w v ne = (v, ne refl)
  add_ports-Serving (suc n) port ip d w v ne =
      go (add h ip port d w) (add-Serving ip port d w v)
        (λ d' w' v' ne'. add_ports-Serving n (port + 1) ip d' w' v' (λ _. ne'))
    where
      go :
          (o : Option (Bool × Db h × World))
          → Ensures Serving o
          → ((d' : Db h) (w' : World)
              → IsValidDb h d'
              → d'.nodes ≢ []
              → Ensures Serving (add_ports h n (port + 1) ip d' w'))
          → Ensures Serving (elim o [
            | none ↦ none
            | some (true, d', w') ↦ add_ports h n (port + 1) ip d' w'
            | some (false, d', w') ↦ some (false, d', w')
          ])
      go none b rest = b
      go (some (true, d', w')) b rest = rest d' w' b.0 b.1
      go (some (false, d', w')) b rest = b

  add_host-Started :
      (i : HostInfo) (d : Db h) (w : World) → IsValidDb h d → Ensures Started (add_host h i d w)
  unfolding add_host
  add_host-Started i d w v =
      elim (Bool-cases (not (is_empty i.ip) && (is_positive i.port && is_positive i.cnt))) [
        | inl t ↦
            rw (t, add_host, Ensures)
              (Ensures-map Serving Started (add_ports h _ _ i.ip d w) (λ r s. (s.0, λ _. s.1))
                (add_ports-Serving (pos_part i.cnt) (pos_part i.port) i.ip d w v
                  (λ e. absurd (positive i t e))))
        | inr f ↦ rw (f, add_host, Ensures) (v, λ e. cc)
      ]
    where
      positive :
          (i : HostInfo)
          → (not (is_empty i.ip) && (is_positive i.port && is_positive i.cnt)) ≡ true
          → pos_part i.cnt ≢ 0
      positive i t = ground arith

  add_hosts-Started :
      (ok : Bool) (is : List HostInfo) (d : Db h) (w : World)
      → IsValidDb h d
      → (ok ≡ true → d.nodes ≢ [])
      → Ensures Started (add_hosts h ok is d w)
  unfolding add_hosts
  add_hosts-Started ok [] d w v ne = (v, ne)
  add_hosts-Started ok (i ∷ is) d w v ne =
      go (add_host h i d w) (add_host-Started i d w v)
        (λ d' w' v' ne'. add_hosts-Started true is d' w' v' (λ _. ne'))
    where
      go :
          (o : Option (Bool × Db h × World))
          → Ensures Started o
          → ((d' : Db h) (w' : World)
              → IsValidDb h d'
              → d'.nodes ≢ []
              → Ensures Started (add_hosts h true is d' w'))
          → Ensures Started (elim o [
            | none ↦ none
            | some (true, d', w') ↦ add_hosts h true is d' w'
            | some (false, d', w') ↦ some (false, d', w')
          ])
      go none b rest = b
      go (some (true, d', w')) b rest = rest d' w' b.0 (b.1 refl)
      go (some (false, d', w')) b rest = b

  -- Setting up a new pool never faults, whatever the configuration and the answers of hiredis. The pool
  -- is valid after it, and its ring has a node if `init` returned true.
  pub init-Started :
      (conf : Option (List ℕ × List HostInfo)) (w : World)
      → Ensures Started (init h conf (new_db h) w)
  unfolding init new_db
  init-Started none w = (record { linked = record { ring = tt; inside = tt }; valid = tt }, λ e. cc)
  init-Started (some (passwd, hosts)) w =
      add_hosts-Started false hosts _ w
        (record { linked = record { ring = tt; inside = tt }; valid = tt }) (λ e. cc)
