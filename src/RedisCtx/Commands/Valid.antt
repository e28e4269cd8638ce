-- ===== src/RedisCtx/Commands/Valid.antt =====
-- _RedisHeader.cpp: no method of `RedisCtx` touches a NULL context, and each leaves the object
-- consistent.
use mathlib.Core.Path.{subst}
use functions.Base.{
  ℕ, zero, suc, ◌+◌, ◌%◌, ◌^◌, ◌≡◌, refl, sym, ◌∙◌, Bool, true, false, List, [], ◌∷◌, Option, none,
  some, arith, Bool-cases, Option-cases, inl, inr,
}
use functions.Printf.{bytes}
use functions.Hiredis.{Hiredis, Dependable, AllSome}
use functions.RedisCtx.{Redis, ctx_ok, M, execute, reconn, chk_valid, ◌>>=◌, pure, on_ctx}
use functions.RedisCtx.Commands.{
  strings_of, keys_of, when_valid, or_reconn, reply_or_reconn, operation, operation_cmd,
  get_pattern_keys, del_keys, find_and_delete, del_pattern_keys, del_pattern_keys_except,
  query_debug, read_replies, get_replies, append_v, append_cmd, commit,
}
use functions.RedisCtx.Commands.Reconnect.{
  Ensures, Ensures-map, bind_rule, connected, IsValid, IsFresh, IsFresh-IsValid, Fresh,
  execute_keeps, reconn-IsFresh,
}

strings_of-some :
    (es : List (Option (List ℕ))) → AllSome es → (ks : List (List ℕ)) × (strings_of es ≡ some ks)
unfolding strings_of
strings_of-some [] a = ([], refl)
strings_of-some (none ∷ es) a = absurd a
strings_of-some (some k ∷ es) a =
    let (ks, e) = strings_of-some es a in (k ∷ ks, rw (e, strings_of) refl)

module _ (h : Hiredis) where
  open h use {World, Context, Reply, Args}

  -- A method's run that faults nowhere and leaves a valid object.
  abbrev pub Safe : {A : Type 0} → M Context World A → Redis Context → World → Type 0
  Safe m c w = Ensures (λ r. IsValid r.1) (m c w)

  or_reconn_safe : (b : Bool) (c : Redis Context) (w : World) → IsValid c → Safe (or_reconn h b) c w
  unfolding or_reconn
  or_reconn_safe true c w v = v
  or_reconn_safe false c w v =
      bind_rule (Fresh h) _ (reconn h) (λ _. pure false) c w (reconn-IsFresh h c w)
        λ _ c' w' p. IsFresh-IsValid p

  reply_or_reconn_safe :
      (o : Option Reply) (c : Redis Context) (w : World)
      → IsValid c
      → Safe (reply_or_reconn h o) c w
  unfolding reply_or_reconn
  reply_or_reconn_safe (some r) c w v = v
  reply_or_reconn_safe none c w v =
      bind_rule (Fresh h) _ (reconn h) (λ _. pure none) c w (reconn-IsFresh h c w)
        λ _ c' w' p. IsFresh-IsValid p

  -- The body runs on a valid object that has its connection.
  when_valid_safe :
      {A : Type 0} (m : M Context World A) (other : A) (c : Redis Context) (w : World)
      → IsValid c
      → (connected c ≡ true → Safe m c w)
      → Safe (when_valid h m other) c w
  unfolding chk_valid
  when_valid_safe m other c w v body = elim (Bool-cases (chk_valid c)) [
    | inl t ↦ rw t (body (ground arith))
    | inr f ↦ rw f v
  ]

  -- The shape of every public method: a guarded body, then a reconnection if it failed.
  method_safe :
      {A B : Type 0} (m : M Context World A) (other : A) (f : A → M Context World B)
      (c : Redis Context) (w : World)
      → IsValid c
      → (connected c ≡ true → Safe m c w)
      → ((a : A) (c' : Redis Context) (w' : World) → IsValid c' → Safe (f a) c' w')
      → Safe (when_valid h m other >>= f) c w
  method_safe m other f c w v body after =
      bind_rule (λ r. IsValid r.1) (λ r. IsValid r.1) (when_valid h m other) f c w
        (when_valid_safe m other c w v body) after

  pub operation_safe :
      (args : Args) (c : Redis Context) (w : World) → IsValid c → Safe (operation h args) c w
  unfolding operation
  operation_safe args c w v =
      method_safe (on_ctx (λ x. h.vcommand x args)) none (reply_or_reconn h) c w v
        (λ e. ground arith) reply_or_reconn_safe

  pub operation_cmd_safe :
      (cmd : List ℕ) (c : Redis Context) (w : World) → IsValid c → Safe (operation_cmd h cmd) c w
  unfolding operation_cmd
  operation_cmd_safe cmd c w v =
      method_safe (on_ctx (λ x. h.command x cmd)) none (reply_or_reconn h) c w v (λ e. ground arith)
        reply_or_reconn_safe

  pub query_debug_safe :
      (cmd : List ℕ) (c : Redis Context) (w : World) → IsValid c → Safe (query_debug h cmd) c w
  unfolding query_debug
  query_debug_safe cmd c w v =
      method_safe (execute h cmd) false (or_reconn h) c w v body or_reconn_safe
    where
      body : connected c ≡ true → Safe (execute h cmd) c w
      body e =
          Ensures-map (λ r. r.1 ≡ c) (λ r. IsValid r.1) (execute h cmd c w)
            (λ r q. subst IsValid (sym q) v) (execute_keeps h cmd c w e)

  -- A loop that only talks to the server leaves the object alone.
  read_replies_keeps :
      (n : ℕ) (c : Redis Context) (w : World)
      → connected c ≡ true
      → Ensures (λ r. r.1 ≡ c) (read_replies h n c w)
  unfolding read_replies
  read_replies_keeps zero c w e = refl
  read_replies_keeps (suc n) c w e = elim (Option-cases c.ctx) [
    | inl q ↦ ground arith
    | inr (x, q) ↦ ground (arith, read_replies_keeps n c (h.get_reply x w).2 e)
  ]

  del_keys_keeps :
      (ks : List (List ℕ)) (c : Redis Context) (w : World)
      → connected c ≡ true
      → Ensures (λ r. r.1 ≡ c) (del_keys h ks c w)
  unfolding del_keys
  del_keys_keeps [] c w e = refl
  del_keys_keeps (k ∷ ks) c w e = elim (Option-cases c.ctx) [
    | inl q ↦ ground arith
    | inr (x, q) ↦ ground (arith, del_keys_keeps ks c (h.command_arg x (bytes "DEL ") k w).1 e)
  ]

  keys_of_keeps :
      (except : List ℕ) (r : Reply) (c : Redis Context) (w : World)
      → (h.is_array r ≡ true → AllSome (h.elements r))
      → Ensures (λ r'. r'.1 ≡ c) (keys_of h except (some r) c w)
  unfolding keys_of
  keys_of_keeps except r c w k = elim (Bool-cases (h.is_array r)) [
    | inl t ↦ let (ks, e) = strings_of-some (h.elements r) (k t) in rw (t, keys_of, e) refl
    | inr f ↦ rw (f, keys_of) refl
  ]

  get_pattern_keys_keeps :
      (dep : Dependable h) (pattern except : List ℕ) (c : Redis Context) (w : World)
      → connected c ≡ true
      → Ensures (λ r. r.1 ≡ c) (get_pattern_keys h pattern except c w)
  unfolding get_pattern_keys keys_of
  get_pattern_keys_keeps dep pattern except c w e = elim (Option-cases c.ctx) [
    | inl q ↦ ground arith
    | inr (x, q) ↦
        rw (q, get_pattern_keys)
          (go _ (h.command_arg x (bytes "KEYS ") pattern w).0 (dep.key_strings x pattern w)
            (h.command_arg x (bytes "KEYS ") pattern w).1)
  ]
    where
      go :
          (c1 : Redis Context) (o : Option Reply)
          → ((r : Reply) → o ≡ some r → h.is_array r ≡ true → AllSome (h.elements r))
          → (w' : World) → Ensures (λ r. r.1 ≡ c1) (keys_of h except o c1 w')
      go c1 none k w' = refl
      go c1 (some r) k w' = keys_of_keeps except r c1 w' (k r refl)

  find_and_delete_keeps :
      (dep : Dependable h) (pattern except : List ℕ) (c : Redis Context) (w : World)
      → connected c ≡ true
      → Ensures (λ r. r.1 ≡ c) (find_and_delete h pattern except c w)
  unfolding find_and_delete
  find_and_delete_keeps dep pattern except c w e =
      bind_rule (λ r. r.1 ≡ c) (λ r. r.1 ≡ c) (get_pattern_keys h pattern except) _ c w
        (get_pattern_keys_keeps dep pattern except c w e) then_delete
    where
      then_delete :
          (o : Option (List (List ℕ))) (c' : Redis Context) (w' : World)
          → c' ≡ c
          → Ensures
              (λ r. r.1 ≡ c)
              (elim o as (λ _. M Context World Bool) [ none ↦ pure false | some ks ↦ del_keys h ks ]
                c' w')
      then_delete none c' w' q = q
      then_delete (some ks) c' w' q =
          Ensures-map (λ r. r.1 ≡ c') (λ r. r.1 ≡ c) (del_keys h ks c' w') (λ r p. p ∙ q)
            (del_keys_keeps ks c' w' (ground arith))

  keeps_safe :
      {A : Type 0} (m : M Context World A) (c : Redis Context) (w : World)
      → IsValid c
      → Ensures (λ r. r.1 ≡ c) (m c w)
      → Safe m c w
  keeps_safe m c w v =
      Ensures-map (λ r. r.1 ≡ c) (λ r. IsValid r.1) (m c w) (λ r q. subst IsValid (sym q) v)

  pub del_pattern_keys_except_safe :
      (dep : Dependable h) (pattern except : List ℕ) (c : Redis Context) (w : World)
      → IsValid c
      → Safe (del_pattern_keys_except h pattern except) c w
  unfolding del_pattern_keys_except
  del_pattern_keys_except_safe dep pattern except c w v =
      method_safe (find_and_delete h pattern except) false (or_reconn h) c w v
        (λ e.
          keeps_safe (find_and_delete h pattern except) c w v
            (find_and_delete_keeps dep pattern except c w e))
        or_reconn_safe

  pub del_pattern_keys_safe :
      (dep : Dependable h) (pattern : List ℕ) (c : Redis Context) (w : World)
      → IsValid c
      → Safe (del_pattern_keys h pattern) c w
  unfolding del_pattern_keys
  del_pattern_keys_safe dep pattern c w v =
      method_safe (find_and_delete h pattern []) false (or_reconn h) c w v
        (λ e.
          keeps_safe (find_and_delete h pattern []) c w v
            (find_and_delete_keeps dep pattern [] c w e))
        or_reconn_safe

  -- Reading the replies that are due leaves a connection with an empty pipeline.
  pub get_replies_safe :
      (dep : Dependable h) (c : Redis Context) (w : World)
      → connected c ≡ true
      → c.status ≡ ctx_ok
      → Ensures (λ r. IsFresh true r.1) (get_replies h c w)
  unfolding get_replies
  get_replies_safe dep c w e s =
      ground (arith, dep.memory c.app_cnt w, read_replies_keeps c.app_cnt c w e)

  append_v_safe :
      (dep : Dependable h) (args : Args) (c : Redis Context) (w : World)
      → IsValid c
      → connected c ≡ true
      → Safe (append_v h args) c w
  unfolding append_v
  append_v_safe dep args c w v e = elim (Option-cases c.ctx) [
    | inl q ↦ ground arith
    | inr (x, q) ↦ ground (
      arith,
      get_replies_safe dep (record c { app_cnt = (c.app_cnt + 1) % 2 ^ 32 })
          (h.vappend_command x args w).1 e (v.ready e),
    )
  ]

  pub append_cmd_safe :
      (dep : Dependable h) (args : Args) (c : Redis Context) (w : World)
      → IsValid c
      → Safe (append_cmd h args) c w
  unfolding append_cmd
  append_cmd_safe dep args c w v =
      method_safe (append_v h args) false (or_reconn h) c w v (append_v_safe dep args c w v)
        or_reconn_safe

  pub commit_safe :
      (dep : Dependable h) (c : Redis Context) (w : World) → IsValid c → Safe (commit h) c w
  unfolding commit
  commit_safe dep c w v =
      method_safe (get_replies h) false (or_reconn h) c w v
        (λ e.
          Ensures-map (λ r. IsFresh true r.1) (λ r. IsValid r.1) (get_replies h c w)
            (λ r. IsFresh-IsValid) (get_replies_safe dep c w e (v.ready e)))
        or_reconn_safe
