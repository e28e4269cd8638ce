-- ===== src/SocketSet/Repeat.antt =====
-- socket_set.cpp: bytes that `send_data` writes from the cache stay in it.
use functions.Base.{
  ℕ, ◌^◌, ◌<◌, ◌≡◌, ◌≢◌, sym, ap, ◌∙◌, Bool, true, false, List, [], ◌∷◌, Option, none, some, arith,
  length, take, ◌==◌, if◌then◌else◌, append-nil, take_exact,
}
use functions.Base.Int.{ℤ, pos, negsuc}
use functions.Cache.{Cache, Pool, GivesRoom, contents, append}
use functions.Cache.Contents.{IsValid, Result, append-Result, length-contents}
use functions.SocketSet.{
  Kernel, Written, wrote, blocked, broken, write, valid, Env, fewer, keep_rest, remaining,
  write_behind, write_cached, write_direct, send_data,
}
use functions.SocketSet.Send.{length-remaining}

module _ (p : Pool) (g : GivesRoom p) where
  open p use {State}

  front_same : (c : Cache) → IsValid c → take c.data_len (contents c) ≡ contents c
  front_same c v =
      ap (take c.data_len) (sym (append-nil (contents c)))
      ∙ take_exact c.data_len (contents c) [] (sym (length-contents c v))

  keep_rest_front :
      (result : ℤ) (rest : List ℕ) (e : Env p)
      → IsValid e.socket.sc
      → length rest < 2 ^ 32
      → take e.socket.sc.data_len (contents (keep_rest p result rest e).1.socket.sc)
        ≡ contents e.socket.sc
  unfolding keep_rest
  keep_rest_front result [] e v l = front_same e.socket.sc v
  keep_rest_front result (b ∷ bs) e v l =
      go r.0 r.1 (append-Result p g (b ∷ bs) e.socket.sc e.pool v l)
    where
      r : Bool × Cache × State
      r = append p (b ∷ bs) e.socket.sc e.pool

      after : Cache → Env p
      after sc = record e { socket = record e.socket { sc = sc }; pool = r.2 }

      go :
          (ok : Bool) (sc : Cache)
          → Result (b ∷ bs) e.socket.sc ok sc
          → let t : ℤ × Env p = if ok then (result, after sc) else (negsuc 4, after sc) in
            take e.socket.sc.data_len (contents t.1.socket.sc) ≡ contents e.socket.sc
      go true sc q =
          ap (take e.socket.sc.data_len) q.0
          ∙ take_exact e.socket.sc.data_len (contents e.socket.sc) (b ∷ bs)
              (sym (length-contents e.socket.sc v))
      go false sc q = ap (λ c. take e.socket.sc.data_len (contents c)) q ∙ front_same e.socket.sc v

  write_behind_front :
      (bytes : List ℕ) (e : Env p)
      → IsValid e.socket.sc
      → length bytes < 2 ^ 31
      → take e.socket.sc.data_len (contents (write_behind p bytes e).1.socket.sc)
        ≡ contents e.socket.sc
  unfolding write_behind
  write_behind_front bytes e v l = go (write bytes e.kernel)
    where
      go :
          (w : Written × Kernel)
          → let t : ℤ × Env p = elim w.0 [
            | blocked ↦ (pos 0, record e { kernel = w.1 })
            | broken ↦ (negsuc 3, record e { kernel = w.1 })
            | wrote r ↦ keep_rest p (pos r) (remaining p r bytes) (record e { kernel = w.1 })
          ] in
            take e.socket.sc.data_len (contents t.1.socket.sc) ≡ contents e.socket.sc
      go (blocked, k) = front_same e.socket.sc v
      go (broken, k) = front_same e.socket.sc v
      go (wrote r, k) =
          keep_rest_front (pos r) (remaining p r bytes) (record e { kernel = k }) v
            (omega (arith, length-remaining p r bytes))

  write_cached_front :
      (bytes : List ℕ) (e : Env p)
      → IsValid e.socket.sc
      → length bytes < 2 ^ 31
      → (write (contents e.socket.sc) e.kernel).0 ≡ wrote e.socket.sc.data_len
      → take e.socket.sc.data_len (contents (write_cached p bytes e).1.socket.sc)
        ≡ contents e.socket.sc
  unfolding write_cached
  write_cached_front bytes e v l q =
      rw (q, write_cached, all)
        (write_behind_front bytes (record e { kernel = (write (contents e.socket.sc) e.kernel).1 })
          v l)
    where
      all : fewer e.socket.sc.data_len e.socket.sc.data_len ≡ false
      all = ground arith

  -- Where bytes lie in the valid cache of an open socket and one `write` takes them all, `send_data` of
  -- fewer than `2 ^ 31` more bytes leaves them in the cache: it still begins with them, though they are
  -- sent. For a memory pool that gives the room asked for.
  pub send_data_repeats :
      (bytes : List ℕ) (e : Env p)
      → IsValid e.socket.sc
      → valid e.socket ≡ true
      → e.socket.sc.data_len ≢ 0
      → length bytes < 2 ^ 31
      → (write (contents e.socket.sc) e.kernel).0 ≡ wrote e.socket.sc.data_len
      → take e.socket.sc.data_len (contents (send_data p bytes e).1.socket.sc)
        ≡ contents e.socket.sc
  unfolding send_data
  send_data_repeats bytes e v ok ne l q = dispatch e.socket.fd ok
    where
      full : (e.socket.sc.data_len == 0) ≡ false
      full = ground arith

      dispatch :
          (fd : Option ℕ)
          → (elim fd as (λ _. Bool) [ none ↦ false | some fd ↦ true ]) ≡ true
          → let t : ℤ × Env p = elim fd [
            | none ↦ (negsuc 2, e)
            | some fd ↦
                if e.socket.sc.data_len == 0 then write_direct p bytes e else write_cached p bytes e
          ] in
            take e.socket.sc.data_len (contents t.1.socket.sc) ≡ contents e.socket.sc
      dispatch none b = cc
      dispatch (some fd) b = rw full (write_cached_front bytes e v l q)
