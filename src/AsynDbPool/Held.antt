-- ===== src/AsynDbPool/Held.antt =====
-- AsynDbConn.cpp: what the connections of the pool hold.
use functions.Base.{
  ◌≤◌, ◌⊎◌, ℕ, zero, suc, ◌+◌, ◌<◌, ◌≡◌, refl, List, [], ◌∷◌, ◌++◌, some, arith, length, get_elem?,
  set, inl, inr,
}
use functions.AsynCtx.{Asyn}
use functions.AsynCtx.Balance.{held_as, TellsOpen}

abbrev pub AllTellOpen : List Asyn → Type 0
AllTellOpen [] = Unit
AllTellOpen (c ∷ cs) = TellsOpen c × AllTellOpen cs

-- How many connections hold the context `x`.
abbrev pub held_in : ℕ → List Asyn → ℕ
held_in x [] = 0
held_in x (c ∷ cs) = held_as x c.ctx + held_in x cs

pub AllTellOpen-append :
    (cs : List Asyn) (c : Asyn) → AllTellOpen cs → TellsOpen c → AllTellOpen (cs ++ (c ∷ []))
AllTellOpen-append [] c a t = (t, tt)
AllTellOpen-append (d ∷ cs) c a t = (a.0, AllTellOpen-append cs c a.1 t)

pub AllTellOpen-set :
    (cs : List Asyn) (i : ℕ) (c : Asyn) → AllTellOpen cs → TellsOpen c → AllTellOpen (set cs i c)
AllTellOpen-set [] i c a t = tt
AllTellOpen-set (d ∷ cs) zero c a t = (t, a.1)
AllTellOpen-set (d ∷ cs) (suc i) c a t = (a.0, AllTellOpen-set cs i c a.1 t)

pub AllTellOpen-get :
    (cs : List Asyn) (i : ℕ)
    → AllTellOpen cs
    → i < length cs
    → (c : Asyn) × (get_elem? cs i ≡ some c) × TellsOpen c
AllTellOpen-get [] i a h = absurd (omega arith)
AllTellOpen-get (d ∷ cs) zero a h = (d, refl, a.0)
AllTellOpen-get (d ∷ cs) (suc i) a h = AllTellOpen-get cs i a.1 (omega arith)

pub held_in-set :
    (x : ℕ) (cs : List Asyn) (i : ℕ) (c c' : Asyn)
    → get_elem? cs i ≡ some c
    → held_in x (set cs i c') + held_as x c.ctx ≡ held_in x cs + held_as x c'.ctx
held_in-set x [] i c c' e = absurd cc
held_in-set x (d ∷ cs) zero c c' e = grind arith
held_in-set x (d ∷ cs) (suc i) c c' e = omega (arith, held_in-set x cs i c c' e)

pub held_in-append :
    (x : ℕ) (cs : List Asyn) (c : Asyn)
    → held_in x (cs ++ (c ∷ [])) ≡ held_in x cs + held_as x c.ctx
held_in-append x [] c = omega arith
held_in-append x (d ∷ cs) c = omega (arith, held_in-append x cs c)

pub held_in-le :
    (x : ℕ) (cs : List Asyn) (i : ℕ) (c : Asyn)
    → get_elem? cs i ≡ some c
    → held_as x c.ctx ≤ held_in x cs
held_in-le x [] i c e = absurd cc
held_in-le x (d ∷ cs) zero c e = grind arith
held_in-le x (d ∷ cs) (suc i) c e = omega (arith, held_in-le x cs i c e)

pub still_alive :
    {n n' v v' a a' : ℕ}
    → (n ≡ 0) ⊎ (v ≡ 0)
    → n' ≤ n
    → (a' ≤ a) ⊎ (n' ≡ 0)
    → a ≤ v
    → v' + a ≡ v + a'
    → (n' ≡ 0) ⊎ (v' ≡ 0)
still_alive (inl z) l h b e = inl (omega arith)
still_alive (inr z) l (inl h) b e = inr (omega arith)
still_alive (inr z) l (inr h) b e = inl h

held_zero : (y v : ℕ) → held_as y (some y) ≤ v → v ≡ 0 → ⊥
held_zero y v b z = ground arith

pub unfreed : (y n v : ℕ) → held_as y (some y) ≤ v → (n ≡ 0) ⊎ (v ≡ 0) → n ≡ 0
unfreed y n v b (inl z) = z
unfreed y n v b (inr z) = absurd (held_zero y v b z)
