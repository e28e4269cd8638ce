-- ===== src/HashNodes/Owner.antt =====
-- HashNodes.h: which node a key gets, and which keys move when a node is put.
use functions.Base.{
  ℕ, suc, ◌+◌, ◌-◌, ◌%◌, ◌^◌, ◌≤◌, ◌<◌, ◌≡◌, refl, ◌⊎◌, inl, inr, ◌≢◌, ◌↔◌, List, [], ◌∷◌, none,
  some, arith, ltb, ◌==◌, Bool-cases, Option-cases,
}
use functions.HashNodes.{NodeMap, hash, find, upper_bound, first, locate, get_node}
use functions.HashNodes.Order.{Above, IsRing, hash-lt}

-- The ring has the node `v` at the position `k`.
pub data Entry {ℓ} {V : Type ℓ} (k : ℕ) (v : V) : NodeMap V → Type ℓ where
  here : {j : ℕ} {w : V} {m : NodeMap V} → j ≡ k → w ≡ v → Entry k v ((j, w) ∷ m)
  there : {e : ℕ × V} {m : NodeMap V} → Entry k v m → Entry k v (e ∷ m)

-- How far the position `k` lies clockwise of `l`, on a ring of `2 ^ 32` positions.
abbrev pub clockwise : ℕ → ℕ → ℕ
clockwise l k = (k + 2 ^ 32 - l) % 2 ^ 32

-- The position `k` of the node `v` is the first one clockwise of `l`.
pub data Owner {ℓ} {V : Type ℓ} (l : ℕ) (m : NodeMap V) (v : V) : Type ℓ where
  owner :
      (k : ℕ)
      → Entry k v m
      → ((j : ℕ) (w : V) → Entry j w m → clockwise l k ≤ clockwise l j)
      → Owner l m v

module _ {ℓ} {V : Type ℓ} where
  Entry-Above :
      {j : ℕ} {w : V} {m : NodeMap V} {lo : ℕ} → Entry j w m → Above lo m → (lo ≤ j) × (j < 2 ^ 32)
  Entry-Above (here e f) a = omega arith
  Entry-Above (there {e = e} t) a = omega (arith, Entry-Above {lo = suc e.0} t a.2)

  find-Entry : (l : ℕ) (m : NodeMap V) {v : V} → find l m ≡ some v → Entry l v m
  unfolding find
  find-Entry l [] h = cc
  find-Entry l ((k, w) ∷ m) h = elim (Bool-cases (l == k)) [
    | inl e ↦ here (ground arith) (ground arith)
    | inr e ↦ there (find-Entry l m (ground arith))
  ]

  find-none : (l : ℕ) {j : ℕ} {w : V} {m : NodeMap V} → Entry j w m → find l m ≡ none → j ≢ l
  unfolding find
  find-none l (here e f) h = ground arith
  find-none l (there {e = e} t) h = elim (Bool-cases (l == e.0)) [
    | inl q ↦ ground arith
    | inr q ↦ find-none l t (ground arith)
  ]

  upper_none :
      (l : ℕ) {j : ℕ} {w : V} {m : NodeMap V} → Entry j w m → upper_bound l m ≡ none → j ≤ l
  unfolding upper_bound
  upper_none l (here e f) h = ground arith
  upper_none l (there {e = e} t) h = elim (Bool-cases (ltb l e.0)) [
    | inl q ↦ ground arith
    | inr q ↦ upper_none l t (ground arith)
  ]

  first-some :
      (lo : ℕ) (m : NodeMap V) {v : V}
      → Above lo m
      → first m ≡ some v
      → (k : ℕ) × Entry k v m × ((j : ℕ) (w : V) → Entry j w m → k ≤ j)
  unfolding first
  first-some lo [] a h = cc
  first-some lo ((k, v) ∷ m) a h = (k, here refl (ground arith), least)
    where
      least : (j : ℕ) (w : V) → Entry j w ((k, v) ∷ m) → k ≤ j
      least j w (here e f) = omega arith
      least j w (there t) = omega (arith, Entry-Above {lo = suc k} t a.2)

  -- The entry `k` is the least one above `l`.
  abbrev Next : ℕ → NodeMap V → V → Type ℓ
  Next l m v = (k : ℕ) × Entry k v m × (l < k) × ((j : ℕ) (w : V) → Entry j w m → (j ≤ l) ⊎ (k ≤ j))

  Next-here : (l k : ℕ) (v : V) (m : NodeMap V) → Above (suc k) m → l < k → Next l ((k, v) ∷ m) v
  Next-here l k v m a h = (k, here refl refl, h, least)
    where
      least : (j : ℕ) (w : V) → Entry j w ((k, v) ∷ m) → (j ≤ l) ⊎ (k ≤ j)
      least j w (here e f) = omega arith
      least j w (there t) = inr (omega (arith, Entry-Above {lo = suc k} t a))

  Next-there : (l i : ℕ) (u v : V) (m : NodeMap V) → i ≤ l → Next l m v → Next l ((i, u) ∷ m) v
  Next-there l i u v m h (k, e, lt, le) = (k, there e, lt, least)
    where
      least : (j : ℕ) (w : V) → Entry j w ((i, u) ∷ m) → (j ≤ l) ⊎ (k ≤ j)
      least j w (here p q) = omega arith
      least j w (there t) = le j w t

  upper_some :
      (l lo : ℕ) (m : NodeMap V) {v : V} → Above lo m → upper_bound l m ≡ some v → Next l m v
  unfolding upper_bound
  upper_some l lo [] a h = cc
  upper_some l lo ((k, u) ∷ m) {v = v} a h = elim (Bool-cases (ltb l k)) [
    | inl q ↦ let e : u ≡ v = ground arith in rw (← e) (Next-here l k u m a.2 (ground arith))
    | inr q ↦ Next-there l k u v m (ground arith) (upper_some l (suc k) m a.2 (ground arith))
  ]

  locate-Owner :
      (l : ℕ) (m : NodeMap V) {v : V} → l < 2 ^ 32 → IsRing m → locate l m ≡ some v → Owner l m v
  unfolding locate
  locate-Owner l m {v = v} b r h = elim (Option-cases (find l m)) [
    | inr (u, e) ↦
        let e' : find l m ≡ some v = ground arith in
        owner l (find-Entry l m e') (λ j w t. omega arith)
    | inl e ↦ elim (Option-cases (upper_bound l m)) [
      | inr (u, e') ↦ above e (upper_some l 0 m r (ground arith))
      | inl e' ↦ wrap e e' (first-some 0 m r (ground arith))
    ]
  ]
    where
      above : find l m ≡ none → Next l m v → Owner l m v
      above e (k, t, lt, le) = owner k t λ j w s.
          omega
            (arith, le j w s, find-none l s e, Entry-Above {lo = 0} t r, Entry-Above {lo = 0} s r)

      wrap :
          find l m ≡ none
          → upper_bound l m ≡ none
          → (k : ℕ) × Entry k v m × ((j : ℕ) (w : V) → Entry j w m → k ≤ j)
          → Owner l m v
      wrap d e (k, t, le) = owner k t λ j w s. omega (
        arith,
        le j w s,
        find-none l s d,
        find-none l t d,
        upper_none l t e,
        upper_none l s e,
        Entry-Above {lo = 0} s r,
        Entry-Above {lo = 0} t r,
      )

  -- On a ring, the node that a key gets is the first one clockwise of the key's hash.
  pub get_node-Owner :
      (key : List ℕ) (m : NodeMap V) {v : V}
      → IsRing m
      → get_node key m ≡ some v
      → Owner (hash key) m v
  unfolding get_node
  get_node-Owner key m r h = locate-Owner (hash key) m (hash-lt key) r h

  -- A key has a node exactly if the ring is not empty.
  pub get_node-none : (key : List ℕ) (m : NodeMap V) → (get_node key m ≡ none) ↔ (m ≡ [])
  unfolding get_node locate find upper_bound first
  get_node-none key [] = (λ _. refl, λ _. refl)
  get_node-none key ((k, v) ∷ m) = (λ h. ground arith, λ h. cc)
