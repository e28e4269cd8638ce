-- ===== src/RedisCtx/Commands/Leaks/Calls.antt =====
-- _RedisHeader.cpp: the public methods of `RedisCtx` leak no context.
use functions.Base.{
  ℕ, zero, suc, ◌+◌, ◌≡◌, refl, Bool, true, false, List, [], ◌∷◌, Option, none, some, arith,
  Bool-cases, inl, inr, Option-cases, leb, ltb, if◌then◌else◌,
}
use functions.Printf.{bytes}
use functions.Hiredis.{Hiredis, CountsContexts}
use functions.RedisCtx.{
  Redis, M, ◌>>=◌, ◌>>◌, pure, on_ctx, execute, reconn, chk_valid, max_commit_cnt,
}
use functions.RedisCtx.Commands.{
  Call, reconnects, commits, operates, appends, operates_cmd, queries, deletes, deletes_except,
  call, run, when_valid, or_reconn, reply_or_reconn, operation, operation_cmd, get_pattern_keys,
  keys_of, strings_of, del_keys, find_and_delete, del_pattern_keys, del_pattern_keys_except,
  query_debug, read_replies, get_replies, append_v, append_cmd, commit, reset_app_cnt, count_append,
}
use functions.RedisCtx.Commands.Runs.{configured, configured_ctx}
use functions.RedisCtx.Commands.Leaks.{
  held, Balances, bind-Balances, pure-Balances, execute-Balances, reconn-Balances,
}

module _ (h : Hiredis) (k : CountsContexts h) where
  open h use {World, Context, Reply, Args}
  open k use {
    opened, freed, command_none, command_arg_none, vcommand_none, vappend_command_none,
    get_reply_none,
  }

  abbrev Keeps : {A : Type 0} → M Context World A → Type 0
  Keeps m = Balances h k m

  or_reconn_balances : (b : Bool) → Keeps (or_reconn h b)
  unfolding or_reconn
  or_reconn_balances true c w = refl
  or_reconn_balances false c w =
      bind-Balances h k (reconn h) (λ _. pure false) (reconn-Balances h k)
        (λ _. pure-Balances h k false) c w

  reply_or_reconn_balances : (o : Option Reply) → Keeps (reply_or_reconn h o)
  unfolding reply_or_reconn
  reply_or_reconn_balances (some r) c w = refl
  reply_or_reconn_balances none c w =
      bind-Balances h k (reconn h) (λ _. pure none) (reconn-Balances h k)
        (λ _. pure-Balances h k {A = Option Reply} none) c w

  -- A call of hiredis on the context that neither opens nor closes one.
  on_ctx_balances :
      {A : Type 0} (f : Context → World → A × World)
      → ((x : Context) (w : World) → (opened (f x w).1 ≡ opened w) × (freed (f x w).1 ≡ freed w))
      → Keeps (on_ctx f)
  on_ctx_balances f e c w = elim (Option-cases c.ctx) [
    | inl q ↦ ground arith
    | inr (x, q) ↦ ground (arith, e x w)
  ]

  when_valid_balances :
      {A : Type 0} (m : M Context World A) (other : A) → Keeps m → Keeps (when_valid h m other)
  when_valid_balances m other b c w = elim (Bool-cases (chk_valid c)) [
    | inl t ↦ rw t (b c w)
    | inr f ↦ rw f refl
  ]

  method_balances :
      {A B : Type 0} (m : M Context World A) (other : A) (f : A → M Context World B)
      → Keeps m
      → ((a : A) → Keeps (f a))
      → Keeps (when_valid h m other >>= f)
  method_balances m other f bm bf =
      bind-Balances h k (when_valid h m other) f (when_valid_balances m other bm) bf

  read_replies_balances : (n : ℕ) → Keeps (read_replies h n)
  unfolding read_replies
  read_replies_balances zero c w = refl
  read_replies_balances (suc n) c w =
      bind-Balances h k (on_ctx (λ x w'. let r = h.get_reply x w' in (r.0, r.2))) _
        (on_ctx_balances _ get_reply_none) (next (read_replies_balances n)) c w
    where
      next :
          Keeps (read_replies h n)
          → (b : Bool)
          → Keeps (elim b as (λ _. M Context World Bool) [
            | false ↦ pure false
            | true ↦ read_replies h n
          ])
      next ih false = pure-Balances h k false
      next ih true = ih

  del_keys_balances : (ks : List (List ℕ)) → Keeps (del_keys h ks)
  unfolding del_keys
  del_keys_balances [] c w = refl
  del_keys_balances (d ∷ ks) c w =
      bind-Balances h k (on_ctx (λ x. h.command_arg x (bytes "DEL ") d)) _
        (on_ctx_balances _ (λ x. command_arg_none x (bytes "DEL ") d)) (next (del_keys_balances ks))
        c w
    where
      next :
          Keeps (del_keys h ks)
          → (o : Option Reply)
          → Keeps
              (elim o as (λ _. M Context World Bool) [ none ↦ pure false | some r ↦ del_keys h ks ])
      next ih none = pure-Balances h k false
      next ih (some r) = ih

  keys_of_balances : (except : List ℕ) (o : Option Reply) → Keeps (keys_of h except o)
  unfolding keys_of
  keys_of_balances except none c w = refl
  keys_of_balances except (some r) c w = elim (Bool-cases (h.is_array r)) [
    | inr f ↦ rw (f, keys_of) refl
    | inl t ↦ elim (Option-cases (strings_of (h.elements r))) [
      | inl e ↦ rw (t, keys_of, e) tt
      | inr (ks, e) ↦ rw (t, keys_of, e) refl
    ]
  ]

  get_pattern_keys_balances : (pattern except : List ℕ) → Keeps (get_pattern_keys h pattern except)
  unfolding get_pattern_keys
  get_pattern_keys_balances pattern except =
      bind-Balances h k (on_ctx (λ x. h.command_arg x (bytes "KEYS ") pattern)) (keys_of h except)
        (on_ctx_balances _ (λ x. command_arg_none x (bytes "KEYS ") pattern))
        (keys_of_balances except)

  find_and_delete_balances : (pattern except : List ℕ) → Keeps (find_and_delete h pattern except)
  unfolding find_and_delete
  find_and_delete_balances pattern except =
      bind-Balances h k (get_pattern_keys h pattern except) _
        (get_pattern_keys_balances pattern except) next
    where
      next :
          (o : Option (List (List ℕ)))
          → Keeps (elim o as (λ _. M Context World Bool) [
            | none ↦ pure false
            | some ks ↦ del_keys h ks
          ])
      next none = pure-Balances h k false
      next (some ks) = del_keys_balances ks

  -- A step that changes no field but `app_cnt` balances.
  get_replies_balances : Keeps (get_replies h)
  unfolding get_replies
  get_replies_balances c w = elim (Bool-cases (ltb 0 c.app_cnt)) [
    | inr f ↦ rw f refl
    | inl t ↦ elim (Bool-cases (h.allocates c.app_cnt w)) [
      | inr f ↦ rw (t, f) tt
      | inl a ↦
          rw (t, a)
            (bind-Balances h k (read_replies h c.app_cnt) _ (read_replies_balances c.app_cnt) after
              c w)
    ]
  ]
    where
      after : (b : Bool) → Keeps (reset_app_cnt h >> pure b)
      after b c' w' = refl

  append_v_balances : (args : Args) → Keeps (append_v h args)
  unfolding append_v
  append_v_balances args =
      bind-Balances h k (on_ctx (λ x. h.vappend_command x args)) _
        (on_ctx_balances _ (λ x. vappend_command_none x args)) next
    where
      flush : (n : ℕ) → Keeps (if leb max_commit_cnt n then get_replies h else pure true)
      flush n c w = elim (Bool-cases (leb max_commit_cnt n)) [
        | inl t ↦ rw t (get_replies_balances c w)
        | inr f ↦ rw f refl
      ]

      next :
          (b : Bool)
          → Keeps (elim b as (λ _. M Context World Bool) [
            | false ↦ pure false
            | true ↦
                count_append h >>= λ n. if leb max_commit_cnt n then get_replies h else pure true
          ])
      next false = pure-Balances h k false
      next true = bind-Balances h k (count_append h) _ (λ c w. refl) flush

  forget_balances :
      {A : Type 0} (m : M Context World A) → Keeps m → Keeps (m >>= λ _. pure {A = Unit {0}} tt)
  forget_balances m b = bind-Balances h k m (λ _. pure tt) b (λ _. pure-Balances h k tt)

  guarded_balances :
      (m : M Context World Bool) → Keeps m → Keeps (when_valid h m false >>= or_reconn h)
  guarded_balances m b = method_balances m false (or_reconn h) b or_reconn_balances

  asking_balances :
      (f : Context → World → Option Reply × World)
      → ((x : Context) (w : World) → (opened (f x w).1 ≡ opened w) × (freed (f x w).1 ≡ freed w))
      → Keeps (when_valid h (on_ctx f) none >>= reply_or_reconn h)
  asking_balances f e =
      method_balances (on_ctx f) none (reply_or_reconn h) (on_ctx_balances f e)
        reply_or_reconn_balances

  call_balances : (j : Call Args) → Keeps (call h j)
  unfolding call commit operation append_cmd operation_cmd query_debug del_pattern_keys
      del_pattern_keys_except
  call_balances reconnects = forget_balances (reconn h) (reconn-Balances h k)
  call_balances commits = forget_balances _ (guarded_balances (get_replies h) get_replies_balances)
  call_balances (operates a) =
      forget_balances _ (asking_balances (λ x. h.vcommand x a) (λ x. vcommand_none x a))
  call_balances (appends a) =
      forget_balances _ (guarded_balances (append_v h a) (append_v_balances a))
  call_balances (operates_cmd cmd) =
      forget_balances _ (asking_balances (λ x. h.command x cmd) (λ x. command_none x cmd))
  call_balances (queries cmd) =
      forget_balances _ (guarded_balances (execute h cmd) (execute-Balances h k cmd))
  call_balances (deletes p) =
      forget_balances _ (guarded_balances (find_and_delete h p []) (find_and_delete_balances p []))
  call_balances (deletes_except p e) =
      forget_balances _ (guarded_balances (find_and_delete h p e) (find_and_delete_balances p e))

  run_balances : (js : List (Call Args)) → Keeps (run h js)
  unfolding run
  run_balances [] c w = refl
  run_balances (j ∷ js) c w =
      bind-Balances h k (call h j) (λ _. run h js) (call_balances j) (λ _. run_balances js) c w

  -- Over any calls on a new object one more context is opened than freed if the object ends with one, and
  -- else as many are freed as opened.
  pub run-Balanced :
      (ip : List ℕ) (port index : ℕ) (passwd : List ℕ) (js : List (Call Args)) (w : World)
      {c : Redis Context} {w' : World}
      → run h js (configured ip port index passwd) w ≡ some (tt, c, w')
      → opened w' + freed w ≡ opened w + freed w' + held c
  run-Balanced ip port index passwd js w e = ground (
    arith,
    run_balances js (configured ip port index passwd) w,
    configured_ctx {C = Context} ip port index passwd,
  )
