-- ===== src/RedisCtx/Commands/Reconnect.antt =====
-- _RedisHeader.cpp: what `reconn` leaves behind, whatever hiredis answers, and the rules for chains
-- of steps that may fault.
use functions.Base.{
  ℕ, ◌<◌, ◌≡◌, refl, Bool, true, false, List, [], ◌∷◌, Option, none, some, arith, Bool-cases, inl,
  inr,
}
use functions.Hiredis.{Hiredis}
use functions.RedisCtx.{
  Redis, ctx_ok, ctx_close, M, close, execute, settle, select_db, auth_db, log_in, check_ctx, conn,
  reconn, ◌>>=◌, ◌>>◌, pure,
}

-- The run ends with no fault, in a state with the property.
abbrev pub Ensures : {R : Type 0} → (R → Type 0) → Option R → Type 0
Ensures P none = ⊥
Ensures P (some r) = P r

abbrev pub connected : {C : Type 0} → Redis C → Bool
connected c = elim c.ctx [ none ↦ false | some x ↦ true ]

pub record IsValid {C : Type 0} (c : Redis C) : Type 0 where
  -- Without a context nothing is in the pipeline.
  pub idle : connected c ≡ false → c.app_cnt ≡ 0
  -- A context that is held is ready.
  pub ready : connected c ≡ true → c.status ≡ ctx_ok
  pub bounded : c.app_cnt < 5000

-- What `reconn` leaves behind: a ready connection, or a closed one, with an empty pipeline.
pub record IsFresh {C : Type 0} (b : Bool) (c : Redis C) : Type 0 where
  pub outcome : connected c ≡ b
  pub opened_ok : b ≡ true → c.status ≡ ctx_ok
  pub closed : b ≡ false → c.status ≡ ctx_close
  pub emptied : c.app_cnt ≡ 0

pub IsFresh-IsValid : {C : Type 0} {b : Bool} {c : Redis C} → IsFresh b c → IsValid c
IsFresh-IsValid p = ground arith

module _ {C W A B : Type 0} where
  -- The rule for a chain of two steps.
  pub bind_rule :
      (P : A × Redis C × W → Type 0) (Q : B × Redis C × W → Type 0) (m : M C W A) (f : A → M C W B)
      (c : Redis C) (w : W)
      → Ensures P (m c w)
      → ((a : A) (c' : Redis C) (w' : W) → P (a, c', w') → Ensures Q (f a c' w'))
      → Ensures Q ((m >>= f) c w)
  bind_rule P Q m f c w first then_rest = go (m c w) first
    where
      go :
          (o : Option (A × Redis C × W))
          → Ensures P o
          → Ensures Q (elim o [ none ↦ none | some (a, c', w') ↦ f a c' w' ])
      go none e = absurd e
      go (some (a, c', w')) e = then_rest a c' w' e

pub Ensures-map :
    {R : Type 0} (P Q : R → Type 0) (o : Option R)
    → ((r : R) → P r → Q r)
    → Ensures P o
    → Ensures Q o
Ensures-map P Q none f e = e
Ensures-map P Q (some r) f e = f r e

module _ (h : Hiredis) where
  open h use {World, Context, Reply, Args}

  abbrev pub Fresh : Bool × Redis Context × World → Type 0
  Fresh r = IsFresh r.0 r.1

  pub execute_keeps :
      (cmd : List ℕ) (c : Redis Context) (w : World)
      → connected c ≡ true
      → Ensures (λ r. r.1 ≡ c) (execute h cmd c w)
  unfolding execute
  execute_keeps cmd c w e = ground arith

  close-IsFresh : (c : Redis Context) (w : World) → Ensures (λ r. IsFresh false r.1) (close h c w)
  unfolding close
  close-IsFresh c w = ground arith

  settle-Fresh :
      (b : Bool) (c : Redis Context) (w : World)
      → connected c ≡ true
      → c.app_cnt ≡ 0
      → Ensures Fresh (settle h b c w)
  unfolding settle
  settle-Fresh true c w e z = ground arith
  settle-Fresh false c w e z = ground arith

  login_step :
      (cmd : List ℕ) (c : Redis Context) (w : World)
      → connected c ≡ true
      → c.app_cnt ≡ 0
      → Ensures Fresh ((execute h cmd >>= settle h) c w)
  login_step cmd c w e z =
      bind_rule (λ r. r.1 ≡ c) Fresh (execute h cmd) (settle h) c w (execute_keeps cmd c w e)
        λ b c' w' p. settle-Fresh b c' w' (ground arith) (ground arith)

  select_db-Fresh :
      (c : Redis Context) (w : World)
      → connected c ≡ true
      → c.app_cnt ≡ 0
      → Ensures Fresh (select_db h c w)
  unfolding select_db
  select_db-Fresh c w e z = login_step _ c w e z

  auth_db-Fresh :
      (p : List ℕ) (c : Redis Context) (w : World)
      → c.passwd ≡ p
      → connected c ≡ true
      → c.status ≡ ctx_ok
      → c.app_cnt ≡ 0
      → Ensures Fresh (auth_db h c w)
  unfolding auth_db
  auth_db-Fresh [] c w q e s z = ground arith
  auth_db-Fresh (b ∷ bs) c w q e s z = rw (q, auth_db) (login_step _ c w e z)

  -- `close; return false;`
  refuse-Fresh : (c : Redis Context) (w : World) → Ensures Fresh ((close h >> pure false) c w)
  refuse-Fresh c w =
      bind_rule (λ r. IsFresh false r.1) Fresh (close h) (λ _. pure false) c w (close-IsFresh c w)
        λ _ c' w' p. p

  log_in-Fresh :
      (c : Redis Context) (w : World)
      → connected c ≡ true
      → c.app_cnt ≡ 0
      → Ensures Fresh (log_in h c w)
  unfolding log_in
  log_in-Fresh c w e z =
      bind_rule Fresh Fresh (auth_db h) _ (record c { status = ctx_ok }) w
        (auth_db-Fresh c.passwd _ w refl e refl z) then_select
    where
      then_select :
          (b : Bool) (c' : Redis Context) (w' : World)
          → IsFresh b c'
          → Ensures Fresh (
              elim b as (λ _. M Context World Bool) [ true ↦ select_db h | false ↦ pure false ] c'
                w')
      then_select true c' w' p = select_db-Fresh c' w' p.outcome p.emptied
      then_select false c' w' p = p

  check_ctx-Fresh :
      (o : Option Context) (c : Redis Context) (w : World)
      → c.ctx ≡ o
      → c.app_cnt ≡ 0
      → Ensures Fresh (check_ctx h o c w)
  unfolding check_ctx
  check_ctx-Fresh none c w e z = refuse-Fresh c w
  check_ctx-Fresh (some x) c w e z = elim (Bool-cases (h.has_err x w)) [
    | inl t ↦ rw (t, check_ctx) (refuse-Fresh c w)
    | inr f ↦ rw (f, check_ctx) (log_in-Fresh c w (ground arith) z)
  ]

  conn-Fresh : (c : Redis Context) (w : World) → c.app_cnt ≡ 0 → Ensures Fresh (conn h c w)
  unfolding conn
  conn-Fresh c w z = check_ctx-Fresh _ _ _ refl z

  -- Reconnecting never faults. It returns whether the object has a connection then; that connection
  -- is ready, a missing one is marked closed, and the pipeline is empty.
  pub reconn-IsFresh :
      (c : Redis Context) (w : World) → Ensures (λ r. IsFresh r.0 r.1) (reconn h c w)
  unfolding reconn close
  reconn-IsFresh c w = conn-Fresh _ _ refl
