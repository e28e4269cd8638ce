-- ===== src/SocketSet/Flush.antt =====
-- socket_set.cpp: `send_data_cache` moves bytes from the cache to the wire.
use functions.Base.{
  ℕ, zero, suc, ◌^◌, ◌<◌, ◌≡◌, refl, sym, ◌∙◌, true, List, [], ◌++◌, Option, none, some, arith,
  length, take, drop, ◌==◌, if◌then◌else◌, Bool-cases, inl, inr, append-nil, drop_all,
}
use functions.Base.Int.{ℤ, pos, negsuc}
use functions.Cache.{Cache, Pool, contents, skip}
use functions.Cache.Contents.{IsValid, skip-contents, length-contents}
use functions.SocketSet.{
  Kernel, Written, wrote, blocked, broken, write, Env, skip_sent, send_data_cache,
}
use functions.SocketSet.Send.{Wired, write_loop-Wired}

module _ (p : Pool) where
  open p use {State}

  -- What a flush does.
  abbrev pub Flushed : Env p → ℤ × Env p → Type 0
  Flushed e (pos n, e') =
      (e'.kernel.wire ≡ e.kernel.wire ++ take n (contents e.socket.sc))
      × (contents e'.socket.sc ≡ drop n (contents e.socket.sc))
      × IsValid e'.socket.sc
  Flushed e (negsuc (suc (suc (suc n))), e') =
      (e'.kernel.wire ≡ e.kernel.wire) × (contents e'.socket.sc ≡ []) × IsValid e'.socket.sc
  Flushed e (negsuc (suc (suc zero)), e') = e' ≡ e
  Flushed e (negsuc (suc zero), e') = e' ≡ e
  Flushed e (negsuc zero, e') = e' ≡ e

  -- A flush of a valid cache, whatever `write` answers, loses and repeats nothing where it does not fail:
  -- the wire gains the bytes that the cache loses at its front, as many as the result says. The error -4
  -- empties the cache, with nothing sent, and any other changes nothing. The cache stays valid.
  pub send_data_cache-Flushed : (e : Env p) → IsValid e.socket.sc → Flushed e (send_data_cache p e)
  unfolding send_data_cache write skip_sent
  send_data_cache-Flushed e v = dispatch e.socket.fd
    where
      sc : Cache
      sc = e.socket.sc

      held : List ℕ
      held = contents sc

      len : length held ≡ sc.data_len
      len = length-contents sc v

      skipped :
          (n : ℕ)
          → n < 2 ^ 32
          → (contents (skip p n sc e.pool).0 ≡ drop n held) × IsValid (skip p n sc e.pool).0
      skipped n lt = skip-contents p n sc e.pool v lt

      go :
          (w : Written × Kernel)
          → Wired held e.kernel.wire w
          → Flushed e (elim w.0 as (λ _. ℤ × Env p) [
            | blocked ↦ (pos 0, record e { kernel = w.1 })
            | broken ↦ (negsuc 3, skip_sent p sc.data_len (record e { kernel = w.1 }))
            | wrote r ↦ (pos r, skip_sent p r (record e { kernel = w.1 }))
          ])
      go (blocked, k) q = (q ∙ sym (append-nil e.kernel.wire), refl, v)
      go (broken, k) q =
          let s = skipped sc.data_len (omega (arith, v.small, v.inside)) in
          (q, s.0 ∙ drop_all sc.data_len held (omega (arith, len)), s.1)
      go (wrote r, k) q =
          let s = skipped r (omega (arith, q.0, len, v.small, v.inside)) in (q.1, s.0, s.1)

      quiet : (sc.data_len == 0) ≡ true → Flushed e (pos 0, e)
      quiet t = (sym (append-nil e.kernel.wire), refl, v)

      dispatch :
          (fd : Option ℕ)
          → Flushed e (elim fd as (λ _. ℤ × Env p) [
            | none ↦ (negsuc 2, e)
            | some fd ↦
                let w = write (contents e.socket.sc) e.kernel in
                let e' = record e { kernel = w.1 } in
                if e.socket.sc.data_len == 0 then (pos 0, e) else elim w.0 [
                  | blocked ↦ (pos 0, e')
                  | broken ↦ (negsuc 3, skip_sent p e.socket.sc.data_len e')
                  | wrote r ↦ (pos r, skip_sent p r e')
                ]
          ])
      dispatch none = refl
      dispatch (some fd) = elim (Bool-cases (e.socket.sc.data_len == 0)) [
        | inl t ↦ rw t (quiet t)
        | inr f ↦
            rw f (go (write held e.kernel) (write_loop-Wired held e.kernel.answers e.kernel.wire))
      ]
