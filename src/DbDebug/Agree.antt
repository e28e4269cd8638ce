-- ===== src/DbDebug/Agree.antt =====
-- DbBase.cpp: `DbDebug` and `DbBase` place keys alike.
use mathlib.Core.Path.{subst}
use functions.Base.{
  ℕ, zero, suc, ◌+◌, ◌≡◌, refl, sym, ap, ◌++◌, ◌∙◌, Bool, true, false, not, ◌&&◌, List, [], ◌∷◌,
  Option, none, some, arith, length, set, get_elem?, Bool-cases, Option-cases, inl, inr,
}
use functions.Base.Int.{is_positive, pos_part}
use mathlib.Core.Option.{map}
use functions.HashNodes.{get_node}
use functions.RedisCtx.Names.{named, Whenever, KeepsName, reconn-KeepsName}
use functions.Hiredis.{Hiredis}
use functions.RedisConf.{HostInfo, is_empty}
use functions.RedisCtx.{
  Redis, M, gen_key, reconn, max_redis_db_cnt, new_redis, set_timeout, set_host, set_auth_passwd,
}
use functions.DbBase.{Db, at, add, add_ports, add_host, add_hosts, init, new_db, configure}
use functions.DbDebug.{
  locate_name, Debug, new_debug, debug_add, debug_ports, debug_host, debug_hosts, debug_init,
}

names_of : {C : Type 0} → List (Redis C) → List (List ℕ)
names_of [] = []
names_of (c ∷ cs) = named c ∷ names_of cs

length-names_of : {C : Type 0} (cs : List (Redis C)) → length (names_of cs) ≡ length cs
unfolding names_of
length-names_of [] = refl
length-names_of (c ∷ cs) = omega (arith, length-names_of cs)

names_of-append :
    {C : Type 0} (cs : List (Redis C)) (c : Redis C)
    → names_of (cs ++ (c ∷ [])) ≡ names_of cs ++ (named c ∷ [])
unfolding names_of
names_of-append [] c = refl
names_of-append (d ∷ cs) c = ap (λ ns. named d ∷ ns) (names_of-append cs c)

names_of-set :
    {C : Type 0} (cs : List (Redis C)) (i : ℕ) {c : Redis C} (c' : Redis C)
    → get_elem? cs i ≡ some c
    → named c' ≡ named c
    → names_of (set cs i c') ≡ names_of cs
unfolding names_of
names_of-set {C} [] i c' e n = refl
names_of-set {C} (d ∷ cs) zero {c} c' e n =
    ap (λ a. a ∷ names_of cs) (n ∙ ap (λ o. name_or o) (sym e))
  where
    name_or : Option (Redis C) → List ℕ
    name_or none = []
    name_or (some x) = named x
names_of-set {C} (d ∷ cs) (suc i) c' e n = ap (λ ns. named d ∷ ns) (names_of-set cs i c' e n)

names_of-get :
    {C : Type 0} (cs : List (Redis C)) (i : ℕ)
    → get_elem? (names_of cs) i ≡ map named (get_elem? cs i)
unfolding names_of
names_of-get [] i = refl
names_of-get (c ∷ cs) zero = refl
names_of-get (c ∷ cs) (suc i) = names_of-get cs i

module _ (h : Hiredis) where
  open h use {World, Context}

  -- The same ring, over connections of the names.
  abbrev Agrees : Db h → Debug → Type 0
  Agrees d g = (d.nodes ≡ g.nodes) × (names_of d.vec ≡ g.names)

  -- The connection that `getNode` gives for the key.
  abbrev pub node_of : List ℕ → Db h → Option (Redis Context)
  node_of key d = elim (get_node key d.nodes) [ none ↦ none | some i ↦ get_elem? d.vec i ]

  Agrees-locate :
      (key : List ℕ) (d : Db h) (g : Debug)
      → Agrees d g
      → locate_name key g ≡ map named (node_of key d)
  unfolding locate_name
  Agrees-locate key d g a = rw (sym a.0, sym a.1) (go (get_node key d.nodes))
    where
      go :
          (o : Option ℕ)
          → elim o as (λ _. Option (List ℕ)) [ none ↦ none | some i ↦ get_elem? (names_of d.vec) i ]
            ≡ map named (elim o as (λ _. Option (Redis Context)) [
              | none ↦ none
              | some i ↦ get_elem? d.vec i
            ])
      go none = refl
      go (some i) = names_of-get d.vec i

  -- A step after whose success the rings agree.
  abbrev Follows : Debug → Option (Bool × Db h × World) → Type 0
  Follows g o = Whenever (λ r. r.0 ≡ true → Agrees r.1 g) o

  at-Follows :
      (i : ℕ) (m : M Context World Bool) (d : Db h) (w : World) (g : Debug)
      → Agrees d g
      → KeepsName h m
      → Follows g (at h i m d w)
  at-Follows i m d w g a k = elim (Option-cases (get_elem? d.vec i)) [
    | inl e ↦ rw (e, Whenever) tt
    | inr (c, q) ↦ rw (q, at, Whenever) (go c q (m c w) (k c w))
  ]
    where
      go :
          (c : Redis Context)
          → get_elem? d.vec i ≡ some c
          → (o : Option (Bool × Redis Context × World)) → Whenever (λ r. named r.1 ≡ named c) o
          → Follows g (elim o [
            | none ↦ none
            | some (b, c', w') ↦ some (b, record d { vec = set d.vec i c' }, w')
          ])
      go c q none n = tt
      go c q (some (b, c', w')) n = λ _. (a.0, names_of-set d.vec i c' q n ∙ a.1)

  add-Follows :
      (ip : List ℕ) (port : ℕ) (d : Db h) (w : World) (g : Debug)
      → Agrees d g
      → Follows (debug_add ip port g) (add h ip port d w)
  unfolding add debug_add configure new_redis set_timeout set_host set_auth_passwd
  add-Follows ip port d w g a =
      let n : length d.vec ≡ length g.names = sym (length-names_of d.vec) ∙ ap length a.1 in
      at-Follows (length d.vec) (reconn h) _ w (debug_add ip port g)
        (
          rw (a.0, n) refl,
          names_of-append d.vec (configure h ip port d)
              ∙ ap (λ ns. ns ++ (gen_key ip port 0 max_redis_db_cnt ∷ [])) a.1,
        )
        (reconn-KeepsName h)

  add_ports-Follows :
      (n port : ℕ) (ip : List ℕ) (d : Db h) (w : World) (g : Debug)
      → Agrees d g
      → Follows (debug_ports n port ip g) (add_ports h n port ip d w)
  unfolding add_ports debug_ports
  add_ports-Follows zero port ip d w g a = λ _. a
  add_ports-Follows (suc n) port ip d w g a =
      go (add h ip port d w) (add-Follows ip port d w g a)
        (λ d' w' b. add_ports-Follows n (port + 1) ip d' w' (debug_add ip port g) b)
    where
      go :
          (o : Option (Bool × Db h × World))
          → Follows (debug_add ip port g) o
          → ((d' : Db h) (w' : World)
              → Agrees d' (debug_add ip port g)
              → Follows
                  (debug_ports n (port + 1) ip (debug_add ip port g))
                  (add_ports h n (port + 1) ip d' w'))
          → Follows (debug_ports n (port + 1) ip (debug_add ip port g)) (elim o [
            | none ↦ none
            | some (true, d', w') ↦ add_ports h n (port + 1) ip d' w'
            | some (false, d', w') ↦ some (false, d', w')
          ])
      go none b rest = tt
      go (some (true, d', w')) b rest = rest d' w' (b refl)
      go (some (false, d', w')) b rest = λ e. cc

  add_host-Follows :
      (i : HostInfo) (d : Db h) (w : World) (g : Debug)
      → Agrees d g
      → Follows (debug_host i g) (add_host h i d w)
  unfolding add_host debug_host
  add_host-Follows i d w g a =
      elim (Bool-cases (not (is_empty i.ip) && (is_positive i.port && is_positive i.cnt))) [
        | inl t ↦ rw t (add_ports-Follows (pos_part i.cnt) (pos_part i.port) i.ip d w g a)
        | inr f ↦ rw (f, Whenever) (λ e. cc)
      ]

  add_hosts-Follows :
      (ok : Bool) (is : List HostInfo) (d : Db h) (w : World) (g : Debug)
      → Agrees d g
      → Follows (debug_hosts is g) (add_hosts h ok is d w)
  unfolding add_hosts debug_hosts
  add_hosts-Follows ok [] d w g a = λ _. a
  add_hosts-Follows ok (i ∷ is) d w g a =
      go (add_host h i d w) (add_host-Follows i d w g a)
        (λ d' w' b. add_hosts-Follows true is d' w' (debug_host i g) b)
    where
      go :
          (o : Option (Bool × Db h × World))
          → Follows (debug_host i g) o
          → ((d' : Db h) (w' : World)
              → Agrees d' (debug_host i g)
              → Follows (debug_hosts is (debug_host i g)) (add_hosts h true is d' w'))
          → Follows (debug_hosts is (debug_host i g)) (elim o [
            | none ↦ none
            | some (true, d', w') ↦ add_hosts h true is d' w'
            | some (false, d', w') ↦ some (false, d', w')
          ])
      go none b rest = tt
      go (some (true, d', w')) b rest = rest d' w' (b refl)
      go (some (false, d', w')) b rest = λ e. cc

  -- Where `DbBase::init` of a new pool returns true, `DbDebug::init` on the same configuration has built the
  -- same ring, and `locate` prints for each key the name of the host and the index of the connection that
  -- `DbBase` takes for it.
  pub debug_init-Agrees :
      (passwd : List ℕ) (hosts : List HostInfo) (w : World) {d : Db h} {w' : World}
      → init h (some (passwd, hosts)) (new_db h) w ≡ some (true, d, w')
      → (d.nodes ≡ (debug_init (some (passwd, hosts)) new_debug).1.nodes)
        × ((key : List ℕ)
            → locate_name key (debug_init (some (passwd, hosts)) new_debug).1
              ≡ map named (node_of key d))
  unfolding init new_db debug_init names_of
  debug_init-Agrees passwd hosts w {d} e =
      let a : Agrees d (debug_hosts hosts new_debug) =
        subst (Follows (debug_hosts hosts new_debug)) e
          (add_hosts-Follows false hosts (record { auth_passwd = passwd; nodes = []; vec = [] }) w
            new_debug (refl, refl))
          refl in
      (a.0, λ key. Agrees-locate key d (debug_hosts hosts new_debug) a)
