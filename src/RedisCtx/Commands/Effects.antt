-- ===== src/RedisCtx/Commands/Effects.antt =====
-- _RedisHeader.cpp: what a call leaves behind on its failing and its succeeding branches.
use mathlib.Core.Path.{subst}
use functions.Base.{
  ◌≡◌, refl, sym, ap, ◌∙◌, inl, inr, Bool, true, false, Option, none, some, arith, Bool-cases,
}
use functions.Hiredis.{Hiredis, Dependable}
use functions.RedisCtx.{Redis, pure, on_ctx, reconn, chk_valid}
use functions.RedisCtx.Commands.{
  when_valid, or_reconn, reply_or_reconn, operation, get_replies, commit,
}
use functions.RedisCtx.Commands.Reconnect.{
  Ensures, Ensures-map, bind_rule, IsValid, IsFresh, connected, reconn-IsFresh,
}
use functions.RedisCtx.Commands.Valid.{get_replies_safe}

module _ (h : Hiredis) where
  open h use {World, Context, Reply, Args}

  -- After `if (!bOk) reconn();` the pipeline is empty if it was empty or the step failed.
  or_reconn_empty :
      (b : Bool) (c : Redis Context) (w : World)
      → (b ≡ true → c.app_cnt ≡ 0)
      → Ensures (λ r. r.1.app_cnt ≡ 0) (or_reconn h b c w)
  unfolding or_reconn
  or_reconn_empty true c w z = z refl
  or_reconn_empty false c w z =
      bind_rule (λ r. IsFresh r.0 r.1) (λ r. r.1.app_cnt ≡ 0) (reconn h) (λ _. pure false) c w
        (reconn-IsFresh h c w) λ _ c' w' p. p.emptied

  get_replies_guarded :
      (dep : Dependable h) (c : Redis Context) (w : World)
      → IsValid c
      → Ensures (λ r. r.0 ≡ true → r.1.app_cnt ≡ 0) (when_valid h (get_replies h) false c w)
  unfolding chk_valid
  get_replies_guarded dep c w v = elim (Bool-cases (chk_valid c)) [
    | inl t ↦ rw t (
        Ensures-map (λ r. IsFresh true r.1) (λ r. r.0 ≡ true → r.1.app_cnt ≡ 0) (get_replies h c w)
          (λ r p _. p.emptied) (get_replies_safe h dep c w (ground arith) (v.ready (ground arith))))
    | inr f ↦ rw f (λ e. cc)
  ]

  -- A commit empties the pipeline of a consistent object, whether the replies come or not, where
  -- `malloc` has memory for them.
  pub commit-empties :
      (dep : Dependable h) (c : Redis Context) (w : World)
      → IsValid c
      → Ensures (λ r. r.1.app_cnt ≡ 0) (commit h c w)
  unfolding commit
  commit-empties dep c w v =
      bind_rule (λ r. r.0 ≡ true → r.1.app_cnt ≡ 0) (λ r. r.1.app_cnt ≡ 0)
        (when_valid h (get_replies h) false) (or_reconn h) c w (get_replies_guarded dep c w v)
        or_reconn_empty

  -- The object and the world are those that `reconn` of `c` has left.
  abbrev pub Reconnected : Redis Context → Redis Context → World → Type 0
  Reconnected c c' w' =
      IsFresh (connected c') c' × (w : World) × (reconn h c w ≡ some (connected c', c', w'))

  -- What `operation` leaves: the object untouched beside a reply; beside a NULL what `reconn` makes of it,
  -- a fresh one.
  abbrev pub Settled : Redis Context → Option Reply × Redis Context × World → Type 0
  Settled c r = elim r.0 [ some _ ↦ r.1 ≡ c | none ↦ Reconnected c r.1 r.2 ]

  reply_or_reconn_settles :
      (o : Option Reply) (c c0 : Redis Context) (w : World)
      → c ≡ c0
      → Ensures (Settled c0) (reply_or_reconn h o c w)
  unfolding reply_or_reconn
  reply_or_reconn_settles (some r) c c0 w e = e
  reply_or_reconn_settles none c c0 w e =
      subst
        (λ a.
          Ensures (Settled a)
            (elim (reconn h c w) [ none ↦ none | some (b, c', w') ↦ some (none, c', w') ]))
        e (go (reconn h c w) refl (reconn-IsFresh h c w))
    where
      go :
          (o : Option (Bool × Redis Context × World))
          → reconn h c w ≡ o
          → Ensures (λ r. IsFresh r.0 r.1) o
          → Ensures (Settled c) (elim o [ none ↦ none | some (b, c', w') ↦ some (none, c', w') ])
      go none q p = p
      go (some (b, c', w')) q p = (
        subst (λ a. IsFresh a c') (sym p.outcome) p,
        w,
        q ∙ ap (λ a. some (a, c', w')) (sym p.outcome),
      )

  -- Where `operation` returns a reply the object is as before; where it returns NULL the object is
  -- what `reconn` has made of it: it holds a ready context or none, and its pipeline is empty.
  pub operation-Settled :
      (args : Args) (c : Redis Context) (w : World)
      → IsValid c
      → Ensures (Settled c) (operation h args c w)
  unfolding operation chk_valid
  operation-Settled args c w v =
      bind_rule (λ r. r.1 ≡ c) (Settled c) (when_valid h (on_ctx (λ x. h.vcommand x args)) none)
        (reply_or_reconn h) c w guarded λ o c' w' e. reply_or_reconn_settles o c' c w' e
    where
      guarded : Ensures (λ r. r.1 ≡ c) (when_valid h (on_ctx (λ x. h.vcommand x args)) none c w)
      guarded = elim (Bool-cases (chk_valid c)) [ inl t ↦ rw t (ground arith) | inr f ↦ rw f refl ]
