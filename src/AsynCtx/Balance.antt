-- ===== src/AsynCtx/Balance.antt =====
-- _RedisHeader.cpp: the contexts that an `AsynCtx` gets and gives back.
use functions.Base.{
  ℕ, ◌+◌, ◌≤◌, ◌⊎◌, ap, ◌∙◌, ◌≡◌, refl, Bool, true, false, List, [], ◌∷◌, Option, none, some, arith,
  Bool-cases, Option-cases, inl, inr, ◌==◌, if◌then◌else◌,
}
use functions.RedisCtx.{ctx_ok}
use functions.AsynCtx.{
  reuse, is_in, Asyn, Loop, put_data, next_connect, next_accept, is_ok, send_task, chk_valid, close,
  fail_with, connected_at, conn, reconn, operation, Reply, is_ok_reply, callback_select,
  callback_cmd_set,
}

-- How often `x` is in the list.
abbrev pub count : ℕ → List ℕ → ℕ
count x [] = 0
count x (y ∷ ys) = if x == y then 1 + count x ys else count x ys

abbrev pub held_as : ℕ → Option ℕ → ℕ
held_as x none = 0
held_as x (some y) = if x == y then 1 else 0

abbrev pub is_some : Option ℕ → Bool
is_some none = false
is_some (some y) = true

-- A connection says that it is open when it holds a context, and only then.
abbrev pub TellsOpen : Asyn → Type 0
TellsOpen c = is_ok c.status ≡ is_some c.ctx

-- Each context that was given in between is held or was dropped, once; and a context that the connection
-- came to hold is not freed, nor is any other one freed by the step.
abbrev pub Balanced : Asyn → Loop → Asyn × Loop → Type 0
Balanced c w r =
    (x : ℕ)
    → (count x r.1.given + count x w.dropped + held_as x c.ctx
        ≡ count x w.given + count x r.1.dropped + held_as x r.0.ctx)
      × (count x r.1.freed ≤ count x w.freed)
      × ((held_as x r.0.ctx ≤ held_as x c.ctx) ⊎ (count x r.1.freed ≡ 0))

count-reuse-le : (x y : ℕ) (ys : List ℕ) → count x (reuse y ys) ≤ count x ys
count-reuse-le x y [] = omega arith
count-reuse-le x y (z ∷ zs) = ground (arith, count-reuse-le x y zs)

count-reuse : (x : ℕ) (ys : List ℕ) → count x (reuse x ys) ≡ 0
count-reuse x [] = refl
count-reuse x (z ∷ zs) = ground (arith, count-reuse x zs)

-- The address that comes into use is not freed.
held_or_used : (x y h : ℕ) (ys : List ℕ) → (held_as x (some y) ≤ h) ⊎ (count x (reuse y ys) ≡ 0)
held_or_used x y h ys = elim (Bool-cases (x == y)) [
  | inl t ↦
      let same : x ≡ y = ground arith in
      inr (ap (λ z. count z (reuse y ys)) same ∙ count-reuse y ys)
  | inr f ↦ rw f (inl (omega arith))
]

later :
    (a a' a'' n n' n'' : ℕ)
    → n'' ≤ n'
    → (a' ≤ a) ⊎ (n' ≡ 0)
    → (a'' ≤ a') ⊎ (n'' ≡ 0)
    → (a'' ≤ a) ⊎ (n'' ≡ 0)
later a a' a'' n n' n'' l (inl p) (inl q) = inl (omega arith)
later a a' a'' n n' n'' l (inr p) (inl q) = inr (omega arith)
later a a' a'' n n' n'' l p (inr q) = inr q

abbrev pub Settles : Asyn → Loop → Asyn × Loop → Type 0
Settles c w r = TellsOpen r.0 × Balanced c w r

close-Settles : (c : Asyn) (w : Loop) → Settles c w (close c w)
unfolding close
close-Settles c w = elim (Option-cases c.ctx) [
  | inl e ↦ rw (e, close) (refl, λ x. (refl, omega arith, inl (omega arith)))
  | inr (y, e) ↦ rw (e, close) (refl, λ x. (ground arith, omega arith, inl (omega arith)))
]

close-closed :
    (c : Asyn) (w : Loop) → ((close c w).0.ctx ≡ none) × (is_ok (close c w).0.status ≡ false)
unfolding close
close-closed c w = elim (Option-cases c.ctx) [
  | inl e ↦ rw (e, close) (refl, refl)
  | inr (y, e) ↦ rw (e, close) (refl, refl)
]

then-Settles :
    (c c' : Asyn) (w w' : Loop) (r : Asyn × Loop)
    → Balanced c w (c', w')
    → Settles c' w' r
    → Settles c w r
then-Settles c c' w w' r b s = (
  s.0,
  λ x. (
    omega (arith, (b x).0, (s.1 x).0),
    omega (arith, (b x).1, (s.1 x).1),
    later (held_as x c.ctx) (held_as x c'.ctx) (held_as x r.0.ctx) (count x w.freed)
        (count x w'.freed) (count x r.1.freed) (s.1 x).1 (b x).2 (s.1 x).2,
  ),
)

-- The same of a step with a result.
abbrev pub SettlesAfter : Asyn → Loop → Bool × Asyn × Loop → Type 0
SettlesAfter c w r = Settles c w (r.1, r.2)

send_task-Settles : (c : Asyn) (w : Loop) → TellsOpen c → SettlesAfter c w (send_task c w)
unfolding send_task
send_task-Settles c w t = elim (Bool-cases (next_accept w.accepts)) [
  | inl e ↦ rw (e, send_task) (t, λ x. (refl, omega arith, inl (omega arith)))
  | inr e ↦ rw (e, send_task) (t, λ x. (refl, omega arith, inl (omega arith)))
]

close-after :
    (c c' : Asyn) (w w' : Loop) → Balanced c w (c', w') → SettlesAfter c w (fail_with (close c' w'))
unfolding fail_with
close-after c c' w w' b = then-Settles c c' w w' (close c' w') b (close-Settles c' w')

-- A context that was just given to a connection without one.
connected_at-Settles :
    (i : ℕ) (a : ℕ × Bool) (c : Asyn) (w : Loop)
    → c.ctx ≡ none
    → SettlesAfter c w (connected_at i a c w)
unfolding connected_at
connected_at-Settles i (y, true) c w n =
    let c1 : Asyn = record c { ctx = some y } in
    let w1 : Loop = record w { given = y ∷ w.given; freed = reuse y w.freed } in
    close-after c c1 w w1
      (λ x. (ground (arith, n), count-reuse-le x y w.freed, held_or_used x y _ w.freed))
connected_at-Settles i (y, false) c w n =
    let c1 : Asyn = record c { ctx = some y; status = ctx_ok } in
    let w1 : Loop = record w {
      given = y ∷ w.given;
      freed = reuse y w.freed;
      datas = put_data y i w.datas;
    } in
    let got : Balanced c w (c1, w1) =
      λ x. (ground (arith, n), count-reuse-le x y w.freed, held_or_used x y _ w.freed) in
    let s = send_task-Settles c1 w1 refl in
    let both = then-Settles c c1 w w1 ((send_task c1 w1).1, (send_task c1 w1).2) got s in
    elim (Bool-cases (send_task c1 w1).0) [
      | inl e ↦ rw e both
      | inr e ↦ rw e (close-after c (send_task c1 w1).1 w (send_task c1 w1).2 both.1)
    ]

conn-Settles :
    (i : ℕ) (c : Asyn) (w : Loop)
    → c.ctx ≡ none
    → is_ok c.status ≡ false
    → SettlesAfter c w (conn i c w)
unfolding conn
conn-Settles i c w n s = elim (Option-cases (next_connect w.connects)) [
  | inl e ↦ rw (e, conn) (s, λ x. (ground (arith, n), omega arith, inl (ground (arith, n))))
  | inr (a, e) ↦ rw (e, conn) (connected_at-Settles i a c _ n)
]

pub reconn-Settles : (i : ℕ) (c : Asyn) (w : Loop) → SettlesAfter c w (reconn i c w)
unfolding reconn
reconn-Settles i c w =
    let r = close c w in
    let (n, s) = close-closed c w in
    let b = conn-Settles i r.0 r.1 n s in
    then-Settles c r.0 w r.1 ((conn i r.0 r.1).1, (conn i r.0 r.1).2) (close-Settles c w).1 b

pub operation-Settles :
    (i : ℕ) (c : Asyn) (w : Loop) → TellsOpen c → SettlesAfter c w (operation i c w)
unfolding operation
operation-Settles i c w t = elim (Bool-cases (chk_valid c)) [
  | inr f ↦ rw f (reconn-Settles i c w)
  | inl v ↦
      let r = send_task c w in
      let s = send_task-Settles c w t in
      elim (Bool-cases (send_task c w).0) [
        | inl e ↦ rw (v, e) s
        | inr e ↦
            rw (v, e)
              (then-Settles c r.1 w r.2 ((reconn i r.1 r.2).1, (reconn i r.1 r.2).2) s.1
                (reconn-Settles i r.1 r.2))
      ]
]

pub callback_select-Settles :
    (reply : Option Reply) (c : Asyn) (w : Loop)
    → TellsOpen c
    → Settles c w (callback_select reply c w)
unfolding callback_select
callback_select-Settles reply c w t = elim (Bool-cases (is_ok_reply reply)) [
  | inl e ↦ rw e (t, λ x. (refl, omega arith, inl (omega arith)))
  | inr e ↦ rw e (close-Settles c w)
]

pub callback_cmd_set-Settles :
    (reply : Option Reply) (c : Asyn) (w : Loop)
    → TellsOpen c
    → Settles c w (callback_cmd_set reply c w)
unfolding callback_cmd_set
callback_cmd_set-Settles none c w t = close-Settles c w
callback_cmd_set-Settles (some reply) c w t = (t, λ x. (refl, omega arith, inl (omega arith)))

-- A context that is not among the freed ones does not dangle.
pub is_in-count : (x : ℕ) (ys : List ℕ) → count x ys ≡ 0 → is_in x ys ≡ false
is_in-count x [] e = refl
is_in-count x (y ∷ ys) e = ground (arith, is_in-count x ys)
