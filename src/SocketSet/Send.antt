-- ===== src/SocketSet/Send.antt =====
-- socket_set.cpp: what `send_data` and `send_data_cache` put on the wire and into the cache.
use mathlib.Core.Path.{subst}
use functions.Base.{
  ℕ, zero, suc, ◌^◌, ◌≤◌, ◌<◌, ◌≡◌, refl, sym, ap, ◌∙◌, Bool, true, false, List, [], ◌∷◌, ◌++◌,
  Option, none, some, arith, length, take, ◌==◌, if◌then◌else◌, Bool-cases, inl, inr, append-nil,
  append_assoc, take-append-drop, drop_all, length-drop,
}
use functions.Base.Int.{ℤ, pos, negsuc}
use functions.Cache.{Cache, Pool, GivesRoom, contents, append}
use functions.Cache.Contents.{IsValid, Result, append-Result, contents_none}
use functions.SocketSet.{
  WriteAnswer, takes, write_again, write_interrupted, write_fails, Kernel, Written, wrote, blocked,
  broken, write_loop, write, Env, fewer, keep_rest, remaining, write_cached, write_direct,
  send_data,
}

-- What a write leaves on the wire.
abbrev pub Wired : List ℕ → List ℕ → Written × Kernel → Type 0
Wired bytes wire w = elim w.0 [
  | wrote k ↦ (k ≤ length bytes) × (w.1.wire ≡ wire ++ take k bytes)
  | blocked ↦ w.1.wire ≡ wire
  | broken ↦ w.1.wire ≡ wire
]

pub write_loop-Wired :
    (bytes : List ℕ) (rs : List WriteAnswer) (wire : List ℕ)
    → Wired bytes wire (write_loop bytes rs wire)
unfolding write_loop
write_loop-Wired bytes [] wire = refl
write_loop-Wired bytes (takes n ∷ rs) wire = (omega arith, refl)
write_loop-Wired bytes (write_again ∷ rs) wire = refl
write_loop-Wired bytes (write_interrupted ∷ rs) wire = write_loop-Wired bytes rs wire
write_loop-Wired bytes (write_fails ∷ rs) wire = refl

joined :
    (wire front rest held0 held w now : List ℕ)
    → held0 ≡ []
    → held ≡ []
    → w ≡ wire ++ front
    → now ≡ held ++ rest
    → w ++ now ≡ (wire ++ held0) ++ (front ++ rest)
joined wire front rest held0 held w now e0 e ew en =
    rw (en, e, e0, ew, append-nil wire) (append_assoc wire front rest)

module _ (p : Pool) where
  remaining_whole :
      (r : ℕ) (bytes : List ℕ) → length bytes < 2 ^ 31 → take r bytes ++ remaining p r bytes ≡ bytes
  remaining_whole r bytes l = elim (Bool-cases (fewer r (length bytes))) [
    | inl t ↦ rw t (take-append-drop r bytes)
    | inr f ↦
        let late : length bytes ≤ r = ground arith in
        rw f (ap (λ x. take r bytes ++ x) (sym (drop_all r bytes late)) ∙ take-append-drop r bytes)
  ]

  pub length-remaining : (r : ℕ) (bytes : List ℕ) → length (remaining p r bytes) ≤ length bytes
  length-remaining r bytes = ground (arith, length-drop r bytes)

module _ (p : Pool) (g : GivesRoom p) where
  open p use {State}

  -- The bytes on the wire and behind them those in the cache.
  abbrev pub stream : Env p → List ℕ
  stream e = e.kernel.wire ++ contents e.socket.sc

  -- What became of `bytes`: taken into the stream, by a result of 0 or more; not taken at all, with
  -- nothing changed in the stream, by -1; of an error only that the cache stays valid.
  abbrev pub Delivered : List ℕ → Env p → ℤ × Env p → Type 0
  Delivered bytes e (pos n, e') =
      (n ≤ length bytes) × (stream e' ≡ stream e ++ bytes) × IsValid e'.socket.sc
  Delivered bytes e (negsuc zero, e') = (stream e' ≡ stream e) × IsValid e'.socket.sc
  Delivered bytes e (negsuc (suc n), e') = IsValid e'.socket.sc

  keep_rest-Delivered :
      (n : ℕ) (front rest : List ℕ) (e0 e : Env p)
      → IsValid e.socket.sc
      → length rest < 2 ^ 32
      → n ≤ length (front ++ rest)
      → contents e0.socket.sc ≡ []
      → contents e.socket.sc ≡ []
      → e.kernel.wire ≡ e0.kernel.wire ++ front
      → Delivered (front ++ rest) e0 (keep_rest p (pos n) rest e)
  unfolding keep_rest
  keep_rest-Delivered n front [] e0 e v l le c0 c w = (
    le,
    joined e0.kernel.wire front [] (contents e0.socket.sc) (contents e.socket.sc) e.kernel.wire
        (contents e.socket.sc) c0 c w (sym (append-nil (contents e.socket.sc))),
    v,
  )
  keep_rest-Delivered n front (b ∷ bs) e0 e v l le c0 c w =
      go r.0 r.1 (append-Result p g (b ∷ bs) e.socket.sc e.pool v l)
    where
      r : Bool × Cache × State
      r = append p (b ∷ bs) e.socket.sc e.pool

      after : Cache → Env p
      after sc = record e { socket = record e.socket { sc = sc }; pool = r.2 }

      go :
          (ok : Bool) (sc : Cache)
          → Result (b ∷ bs) e.socket.sc ok sc
          → Delivered (front ++ b ∷ bs) e0 (if ok then (pos n, after sc) else (negsuc 4, after sc))
      go true sc q = (
        le,
        joined e0.kernel.wire front (b ∷ bs) (contents e0.socket.sc) (contents e.socket.sc)
            e.kernel.wire (contents sc) c0 c w q.0,
        q.1,
      )
      go false sc q = subst IsValid (sym q) v

  -- With nothing in its valid cache `send_data` of fewer than `2 ^ 31` bytes loses and repeats nothing
  -- where it does not fail, for a memory pool that gives the room asked for: a result of 0 or more means
  -- that all bytes are on the wire or behind it in the cache, -1 that none of them is. The cache stays
  -- valid in any case.
  pub send_data-Delivered :
      (bytes : List ℕ) (e : Env p)
      → IsValid e.socket.sc
      → e.socket.sc.data_len ≡ 0
      → length bytes < 2 ^ 31
      → Delivered bytes e (send_data p bytes e)
  unfolding send_data write_direct write
  send_data-Delivered bytes e v z l = dispatch e.socket.fd
    where
      nothing : contents e.socket.sc ≡ []
      nothing = contents_none e.socket.sc z

      go :
          (w : Written × Kernel)
          → Wired bytes e.kernel.wire w
          → Delivered bytes e (elim w.0 as (λ _. ℤ × Env p) [
            | blocked ↦ (negsuc 0, record e { kernel = w.1 })
            | broken ↦ (negsuc 3, record e { kernel = w.1 })
            | wrote r ↦ keep_rest p (pos r) (remaining p r bytes) (record e { kernel = w.1 })
          ])
      go (blocked, k) q = (ap (λ x. x ++ contents e.socket.sc) q, v)
      go (broken, k) q = v
      go (wrote r, k) q =
          subst
            (λ b.
              Delivered b e (keep_rest p (pos r) (remaining p r bytes) (record e { kernel = k })))
            (remaining_whole p r bytes l)
            (keep_rest-Delivered r (take r bytes) (remaining p r bytes) e (record e { kernel = k })
              v (omega (arith, length-remaining p r bytes))
              (subst (λ b. r ≤ length b) (sym (remaining_whole p r bytes l)) q.0) nothing nothing
              q.1)

      empty : (e.socket.sc.data_len == 0) ≡ true
      empty = ground arith

      dispatch :
          (fd : Option ℕ)
          → Delivered bytes e (elim fd as (λ _. ℤ × Env p) [
            | none ↦ (negsuc 2, e)
            | some fd ↦
                if e.socket.sc.data_len == 0 then write_direct p bytes e else write_cached p bytes e
          ])
      dispatch none = v
      dispatch (some fd) =
          rw empty
            (go (write bytes e.kernel) (write_loop-Wired bytes e.kernel.answers e.kernel.wire))
