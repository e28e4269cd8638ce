-- ===== src/RedisConf/Hosts.antt =====
-- RedisConf.cpp: which hosts a parse leaves.
use mathlib.Core.Path.{subst}
use functions.Base.{
  ℕ, zero, suc, ◌≡◌, refl, sym, ◌∙◌, true, List, [], ◌∷◌, ◌++◌, arith, Bool-cases, Option-cases,
  inl, inr, ◌≢◌,
}
use functions.Printf.{bytes}
use functions.RedisConf.{
  Json, Conf, HostInfo, is_valid, read_item, read_items, load, read_hosts, read_passwd, parse,
  hosts_code, and_then,
}

abbrev pub AllValid : List HostInfo → Type 0
AllValid [] = Unit {0}
AllValid (i ∷ is) = (is_valid i ≡ true) × AllValid is

AllValid-append :
    (is : List HostInfo) (i : HostInfo)
    → AllValid is
    → is_valid i ≡ true
    → AllValid (is ++ (i ∷ []))
AllValid-append [] i a v = (v, tt)
AllValid-append (k ∷ is) i a v = (a.0, AllValid-append is i a.1 v)

module _ (j : Json) where
  open j use {Value, member, is_array, items}

  read_items_valid :
      (vs : List Value) (vec : List HostInfo) → AllValid vec → AllValid (read_items j vs vec).1
  unfolding read_items
  read_items_valid [] vec a = a
  read_items_valid (v ∷ vs) vec a = elim (Option-cases (read_item j v)) [
    | inl e ↦ rw (e, read_items) a
    | inr (i, e) ↦
        rw (e, read_items)
          (elim (Bool-cases (is_valid i)) [
            | inl t ↦ rw t (read_items_valid vs (vec ++ (i ∷ [])) (AllValid-append vec i a t))
            | inr f ↦ rw f (read_items_valid vs vec a)
          ])
  ]

  read_hosts_valid : (c : Conf j) → AllValid (read_hosts j c).1.vec
  unfolding read_hosts
  read_hosts_valid c = elim (Option-cases (member c.content (bytes "redis_hosts"))) [
    | inl e ↦ rw (e, read_hosts) tt
    | inr (obj, e) ↦
        rw (e, read_hosts)
          (elim (Bool-cases (is_array obj)) [
            | inl t ↦ rw t (read_items_valid (items obj) [] tt)
            | inr f ↦ rw f tt
          ])
  ]

  read_hosts_zero : (c : Conf j) → (read_hosts j c).0 ≡ 0 → (read_hosts j c).1.vec ≢ []
  unfolding read_hosts hosts_code
  read_hosts_zero c e = ground arith

  load_vec : (path : List ℕ) (c : Conf j) → (load j path c).1.vec ≡ c.vec
  unfolding load
  load_vec path c = ground arith

  read_passwd_vec : (c : Conf j) → (read_passwd j c).1.vec ≡ c.vec
  unfolding read_passwd
  read_passwd_vec c = ground arith

  abbrev Fine : ℕ × Conf j → Type 0
  Fine r = AllValid r.1.vec × (r.0 ≡ 0 → r.1.vec ≢ [])

  passwd-Fine : (r : ℕ × Conf j) → Fine r → Fine (and_then j r (read_passwd j))
  passwd-Fine (suc n, c) f = (f.0, λ e. absurd (omega arith))
  passwd-Fine (zero, c) f =
      (subst AllValid (sym (read_passwd_vec c)) f.0, λ _ q. f.1 refl (sym (read_passwd_vec c) ∙ q))

  hosts-Fine : (r : ℕ × Conf j) → AllValid r.1.vec → Fine (and_then j r (read_hosts j))
  hosts-Fine (suc n, c) a = (a, λ e. absurd (omega arith))
  hosts-Fine (zero, c) a = (read_hosts_valid c, read_hosts_zero c)

  -- Whatever the file holds, a parse leaves only hosts with an address, a positive port and a positive
  -- count, if the hosts were so before; and where it returns 0 there is a host.
  pub parse-AllValid :
      (path : List ℕ) (c : Conf j)
      → AllValid c.vec
      → AllValid (parse j path c).1.vec × ((parse j path c).0 ≡ 0 → (parse j path c).1.vec ≢ [])
  unfolding parse
  parse-AllValid path c a =
      passwd-Fine (and_then j (load j path c) (read_hosts j))
        (hosts-Fine (load j path c) (subst AllValid (sym (load_vec path c)) a))
