-- ===== src/SocketSet/Receive.antt =====
-- socket_set.cpp: `recv_data` leaves its cache valid, and empty where it succeeds.
use mathlib.Core.Path.{subst}
use functions.Base.{
  ℕ, ◌+◌, ◌≡◌, refl, sym, ◌∙◌, Bool, true, false, List, [], ◌∷◌, Option, none, some, arith, length,
  take, drop, ltb, ◌==◌, if◌then◌else◌, Bool-cases, inl, inr, drop_all, length-take,
}
use functions.Base.Int.{ℤ, pos, negsuc}
use functions.Cache.{Cache, Pool, GivesRoom, contents, skip, append}
use functions.Cache.Contents.{
  IsValid, Result, append-Result, skip-contents, contents_none, length-contents,
}
use functions.SocketSet.{
  int_of, ReadAnswer, gives, read_again, read_interrupted, read_fails, Socket, buf_size, read_loop,
  recv_data, drop_all_received, clear_socket, valid,
}

module _ (p : Pool) where
  open p use {State}

  -- Dropping all that was received leaves a valid and empty cache.
  emptied :
      (c : Cache) (m : State)
      → IsValid c
      → (contents (drop_all_received p c m).0 ≡ []) × IsValid (drop_all_received p c m).0
  emptied c m v =
      let s : (contents (skip p c.data_len c m).0 ≡ drop c.data_len (contents c))
          × IsValid (skip p c.data_len c m).0 =
        skip-contents p c.data_len c m v (omega (arith, v.small, v.inside)) in
      (s.0 ∙ drop_all c.data_len (contents c) (omega (arith, length-contents c v)), s.1)

  -- A result of 0 or more comes with an empty cache, an error with a valid one.
  abbrev pub Drained : ℤ → Cache → Type 0
  Drained (pos n) c = (contents c ≡ []) × IsValid c
  Drained (negsuc n) c = IsValid c

  empty-Drained : (n : ℤ) (c : Cache) → contents c ≡ [] → IsValid c → Drained n c
  empty-Drained (pos n) c e v = (e, v)
  empty-Drained (negsuc n) c e v = v

  -- The answer to a `read` that would block, and the end of the last round.
  rest_dropped :
      (a b : ℤ) (c : Cache) (m : State) (rs : List ReadAnswer)
      → IsValid c
      → let r : ℤ × Cache × State × List ReadAnswer =
          if c.data_len == 0
          then (a, c, m, rs)
          else (b, (drop_all_received p c m).0, (drop_all_received p c m).1, rs) in
        Drained r.0 r.1
  rest_dropped a b c m rs v = elim (Bool-cases (c.data_len == 0)) [
    | inl t ↦ rw t (empty-Drained a c (contents_none c (ground arith)) v)
    | inr f ↦ rw f (empty-Drained b (drop_all_received p c m).0 (emptied c m v).0 (emptied c m v).1)
  ]

  Result-IsValid :
      (bs : List ℕ) (c : Cache) (ok : Bool) (c' : Cache)
      → IsValid c
      → Result bs c ok c'
      → IsValid c'
  Result-IsValid bs c true c' v q = q.1
  Result-IsValid bs c false c' v q = subst IsValid (sym q) v

  read_loop-Drained :
      (g : GivesRoom p) (rs : List ReadAnswer) (n : ℕ) (c : Cache) (m : State)
      → IsValid c
      → let r = read_loop p rs n c m in Drained r.0 r.1
  unfolding read_loop
  read_loop-Drained g [] n c m v = rest_dropped (pos 0) (int_of n) c m [] v
  read_loop-Drained g (read_again ∷ rs) n c m v = rest_dropped (pos 0) (int_of n) c m rs v
  read_loop-Drained g (read_interrupted ∷ rs) n c m v = read_loop-Drained g rs n c m v
  read_loop-Drained g (read_fails ∷ rs) n c m v = v
  read_loop-Drained g (gives [] ∷ rs) n c m v = v
  read_loop-Drained g (gives (b ∷ bs) ∷ rs) n c m v = elim (Bool-cases (append p got c m).0) [
    | inl t ↦ elim (Bool-cases (ltb (length got) buf_size)) [
      | inl last ↦
          rw (t, last)
            (rest_dropped (int_of (n + length got)) (int_of (n + length got)) grown _ rs
              grown_valid)
      | inr more ↦ rw (t, more) (read_loop-Drained g rs (n + length got) grown _ grown_valid)
    ]
    | inr f ↦ rw f grown_valid
  ]
    where
      got : List ℕ
      got = take buf_size (b ∷ bs)

      grown : Cache
      grown = (append p got c m).1

      grown_valid : IsValid grown
      grown_valid =
          Result-IsValid got c (append p got c m).0 grown v
            (append-Result p g got c m v (omega (arith, length-take buf_size (b ∷ bs))))

  -- For a memory pool that gives the room asked for, and any finite sequence of answers of `read`, behind
  -- which it would block: from a valid receive cache, a result of 0 or more comes with an empty and valid
  -- one, and a negative result with a valid one.
  pub recv_data-Drained :
      (g : GivesRoom p) (s : Socket) (rs : List ReadAnswer) (m : State)
      → IsValid s.rc
      → Drained (recv_data p s rs m).0 (recv_data p s rs m).1.rc
  unfolding recv_data
  recv_data-Drained g s rs m v = dispatch s.fd
    where
      start : Cache × State
      start = if s.rc.data_len == 0 then (s.rc, m) else drop_all_received p s.rc m

      start_valid : IsValid start.0
      start_valid = elim (Bool-cases (s.rc.data_len == 0)) [
        | inl t ↦ rw t v
        | inr f ↦ rw f (emptied s.rc m v).1
      ]

      dispatch :
          (fd : Option ℕ)
          → let r : ℤ × Socket × State × List ReadAnswer = elim fd [
            | none ↦ (negsuc 3, s, m, rs)
            | some fd ↦
                let r = read_loop p rs 0 start.0 start.1 in (r.0, record s { rc = r.1 }, r.2, r.3)
          ] in
            Drained r.0 r.1.rc
      dispatch none = v
      dispatch (some fd) = read_loop-Drained g rs 0 start.0 start.1 start_valid

  -- Clearing a socket that is open and whose caches are valid closes it and empties both caches.
  pub clear_socket-empties :
      (s : Socket) (m : State)
      → IsValid s.rc
      → IsValid s.sc
      → valid s ≡ true
      → let r = clear_socket p s m in
        (valid r.0 ≡ false) × (contents r.0.rc ≡ []) × (contents r.0.sc ≡ [])
  unfolding clear_socket
  clear_socket-empties s m v w ok = dispatch s.fd ok
    where
      dispatch :
          (fd : Option ℕ)
          → (elim fd as (λ _. Bool) [ none ↦ false | some fd ↦ true ]) ≡ true
          → let r : Socket × State = elim fd [
            | none ↦ (s, m)
            | some fd ↦
                let r = drop_all_received p s.rc m in
                let t = drop_all_received p s.sc r.1 in
                (record s { fd = none; rc = r.0; sc = t.0 }, t.1)
          ] in
            (valid r.0 ≡ false) × (contents r.0.rc ≡ []) × (contents r.0.sc ≡ [])
      dispatch none b = cc
      dispatch (some fd) b = (refl, (emptied s.rc m v).0, (emptied s.sc _ w).0)
