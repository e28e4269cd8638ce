-- ===== src/DbBase/Valid.antt =====
-- DbBase.cpp: the pool keeps its ring and its connections consistent.
use mathlib.Core.Path.{subst}
use functions.Base.{
  ℕ, zero, suc, ◌+◌, ◌≤◌, ◌<◌, ◌≡◌, ◌≢◌, refl, sym, ◌∙◌, List, [], ◌∷◌, ◌++◌, Option, none, some,
  arith, length, get_elem?, set, length-set, Option-cases, inl, inr,
}
use functions.Hiredis.{Hiredis}
use functions.HashNodes.{NodeMap, put_node, get_node}
use functions.HashNodes.Order.{IsRing, put_node-IsRing}
use functions.HashNodes.Owner.{get_node-none}
use functions.HashNodes.Inside.{Inside, put_node-Inside, put_node-ne-nil, get_node-lt}
use functions.RedisCtx.{Redis, M, gen_key}
use functions.RedisCtx.Commands.Reconnect.{Ensures, Ensures-map, IsValid}
use functions.RedisCtx.Commands.Valid.{Safe}
use functions.DbBase.{Db, at, at_key, at_each, put_vnodes}

abbrev pub AllIsValid : {C : Type 0} → List (Redis C) → Type 0
AllIsValid [] = Unit {0}
AllIsValid (c ∷ cs) = IsValid c × AllIsValid cs

pub AllIsValid-append :
    {C : Type 0} (cs : List (Redis C)) (c : Redis C)
    → AllIsValid cs
    → IsValid c
    → AllIsValid (cs ++ (c ∷ []))
AllIsValid-append [] c a v = (v, tt)
AllIsValid-append (d ∷ cs) c a v = (a.0, AllIsValid-append cs c a.1 v)

AllIsValid-set :
    {C : Type 0} (cs : List (Redis C)) (i : ℕ) (c : Redis C)
    → AllIsValid cs
    → IsValid c
    → AllIsValid (set cs i c)
AllIsValid-set [] i c a v = tt
AllIsValid-set (d ∷ cs) zero c a v = (v, a.1)
AllIsValid-set (d ∷ cs) (suc i) c a v = (a.0, AllIsValid-set cs i c a.1 v)

AllIsValid-get :
    {C : Type 0} (cs : List (Redis C)) (i : ℕ)
    → AllIsValid cs
    → i < length cs
    → (c : Redis C) × (get_elem? cs i ≡ some c) × IsValid c
AllIsValid-get [] i a h = absurd (omega arith)
AllIsValid-get (d ∷ cs) zero a h = (d, refl, a.0)
AllIsValid-get (d ∷ cs) (suc i) a h = AllIsValid-get cs i a.1 (omega arith)

-- What the ring and the connections must be to each other.
pub record Linked (n : ℕ) (m : NodeMap ℕ) : Type 0 where
  pub ring : IsRing m
  pub inside : Inside n m

pub put_vnodes-Linked :
    (n j : ℕ) (ip : List ℕ) (port i k : ℕ) (m : NodeMap ℕ)
    → i < k
    → Linked k m
    → Linked k (put_vnodes n j ip port i m)
unfolding put_vnodes
put_vnodes-Linked zero j ip port i k m h l = l
put_vnodes-Linked (suc n) j ip port i k m h l =
    put_vnodes-Linked n (j + 1) ip port i k (put_node (gen_key ip port 0 j) i m) h (record {
      ring = put_node-IsRing (gen_key ip port 0 j) i m l.ring;
      inside = put_node-Inside (gen_key ip port 0 j) i k m h l.inside;
    })

pub put_vnodes-ne-nil :
    (n j : ℕ) (ip : List ℕ) (port i : ℕ) (m : NodeMap ℕ)
    → (n ≡ 0 → m ≢ [])
    → put_vnodes n j ip port i m ≢ []
unfolding put_vnodes
put_vnodes-ne-nil zero j ip port i m h = h refl
put_vnodes-ne-nil (suc n) j ip port i m h =
    put_vnodes-ne-nil n (j + 1) ip port i _ (λ _. put_node-ne-nil (gen_key ip port 0 j) i m)

module _ (h : Hiredis) where
  open h use {World, Context, Reply, Args}

  pub record IsValidDb (d : Db h) : Type 0 where
    pub linked : Linked (length d.vec) d.nodes
    pub valid : AllIsValid d.vec

  -- A step that keeps the pool valid and its ring as it is.
  abbrev pub Kept : {A : Type 0} → Db h → A × Db h × World → Type 0
  Kept d r = IsValidDb r.1 × (r.1.nodes ≡ d.nodes) × (length r.1.vec ≡ length d.vec)

  pub at-Kept :
      {A : Type 0} (i : ℕ) (m : M Context World A) (d : Db h) (w : World)
      → IsValidDb d
      → i < length d.vec
      → ((c : Redis Context) → IsValid c → (w : World) → Safe h m c w)
      → Ensures (Kept d) (at h i m d w)
  at-Kept {A} i m d w v lt safe =
      let (c, e, cv) = AllIsValid-get d.vec i v.valid lt in
      rw (e, at, Ensures) (go (m c w) (safe c cv w))
    where
      go :
          (o : Option (A × Redis Context × World))
          → Ensures (λ r. IsValid r.1) o
          → Ensures (Kept d) (elim o [
            | none ↦ none
            | some (a, c', w') ↦ some (a, record d { vec = set d.vec i c' }, w')
          ])
      go none b = b
      go (some (a, c', w')) b = (
        record {
          linked = subst (λ k. Linked k d.nodes) (sym (length-set d.vec i c')) v.linked;
          valid = AllIsValid-set d.vec i c' v.valid b;
        },
        refl,
        length-set d.vec i c',
      )

  -- On a valid pool whose ring is not empty, a method of the connection that a key gets runs with no
  -- fault and keeps the pool valid and the ring as it is, if the method does so for the connection.
  pub at_key-Kept :
      {A : Type 0} (key : List ℕ) (m : M Context World A) (d : Db h) (w : World)
      → IsValidDb d
      → d.nodes ≢ []
      → ((c : Redis Context) → IsValid c → (w : World) → Safe h m c w)
      → Ensures (Kept d) (at_key h key m d w)
  unfolding at_key
  at_key-Kept key m d w v ne safe = elim (Option-cases (get_node key d.nodes)) [
    | inl e ↦ absurd (ne ((get_node-none key d.nodes).0 e))
    | inr (i, e) ↦
        rw (e, at_key, Ensures)
          (at-Kept i m d w v
            (get_node-lt key (length d.vec) d.nodes v.linked.ring v.linked.inside e) safe)
  ]

  pub at_each-Kept :
      {A : Type 0} (n i : ℕ) (m : M Context World A) (d : Db h) (w : World)
      → IsValidDb d
      → i + n ≤ length d.vec
      → ((c : Redis Context) → IsValid c → (w : World) → Safe h m c w)
      → Ensures (Kept d) (at_each h n i m d w)
  unfolding at_each
  at_each-Kept zero i m d w v le safe = (v, refl, refl)
  at_each-Kept {A} (suc n) i m d w v le safe =
      go (at h i m d w) (at-Kept i m d w v (omega arith) safe)
        (λ d' w' v' q. at_each-Kept n (i + 1) m d' w' v' (omega arith) safe)
    where
      go :
          (o : Option (A × Db h × World))
          → Ensures (Kept d) o
          → ((d' : Db h) (w' : World)
              → IsValidDb d'
              → length d'.vec ≡ length d.vec
              → Ensures (Kept d') (at_each h n (i + 1) m d' w'))
          → Ensures
              (Kept d)
              (elim o [ none ↦ none | some (a, d', w') ↦ at_each h n (i + 1) m d' w' ])
      go none b rest = b
      go (some (a, d', w')) b rest =
          Ensures-map (Kept d') (Kept d) (at_each h n (i + 1) m d' w')
            (λ r k. (k.0, k.1 ∙ b.1, k.2 ∙ b.2)) (rest d' w' b.0 b.2)
