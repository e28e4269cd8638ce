-- ===== src/SocketSet/Keeps.antt =====
-- socket_set.cpp: sending leaves the descriptor alone.
use functions.Base.{◌≡◌, refl, arith, List, [], ◌∷◌, ℕ, ◌⊎◌, inl, inr}
use functions.Base.Int.{ℤ, pos}
use functions.Cache.{Pool, contents}
use functions.SocketSet.{
  Env, Written, wrote, blocked, broken, write, send_data, write_direct, write_cached, write_behind,
  keep_rest, skip_sent, remaining,
}

Written-cases : (w : Written) → (w ≡ blocked) ⊎ (w ≡ broken) ⊎ ((r : ℕ) × (w ≡ wrote r))
Written-cases blocked = inl refl
Written-cases broken = inr (inl refl)
Written-cases (wrote r) = inr (inr (r, refl))

module _ (p : Pool) where
  keep_rest-fd :
      (result : ℤ) (rest : List ℕ) (e : Env p)
      → (keep_rest p result rest e).1.socket.fd ≡ e.socket.fd
  unfolding keep_rest
  keep_rest-fd result [] e = refl
  keep_rest-fd result (b ∷ bs) e = ground arith

  write_direct-fd :
      (bytes : List ℕ) (e : Env p) → (write_direct p bytes e).1.socket.fd ≡ e.socket.fd
  unfolding write_direct
  write_direct-fd bytes e = elim (Written-cases (write bytes e.kernel).0) [
    | inl stop ↦ rw (stop, write_direct) refl
    | inr (inl stop) ↦ rw (stop, write_direct) refl
    | inr (inr (r, more)) ↦
        rw (more, write_direct)
          (keep_rest-fd (pos r) (remaining p r bytes)
            (record e { kernel = (write bytes e.kernel).1 }))
  ]

  write_behind-fd :
      (bytes : List ℕ) (e : Env p) → (write_behind p bytes e).1.socket.fd ≡ e.socket.fd
  unfolding write_behind
  write_behind-fd bytes e = elim (Written-cases (write bytes e.kernel).0) [
    | inl stop ↦ rw (stop, write_behind) refl
    | inr (inl stop) ↦ rw (stop, write_behind) refl
    | inr (inr (r, more)) ↦
        rw (more, write_behind)
          (keep_rest-fd (pos r) (remaining p r bytes)
            (record e { kernel = (write bytes e.kernel).1 }))
  ]

  write_cached-fd :
      (bytes : List ℕ) (e : Env p) → (write_cached p bytes e).1.socket.fd ≡ e.socket.fd
  unfolding write_cached skip_sent
  write_cached-fd bytes e = elim (Written-cases (write (contents e.socket.sc) e.kernel).0) [
    | inl stop ↦ rw (stop, write_cached) refl
    | inr (inl stop) ↦ rw (stop, write_cached) refl
    | inr (inr (r, more)) ↦
        rw (more, write_cached)
          (ground (
            arith,
            write_behind-fd bytes (record e { kernel = (write (contents e.socket.sc) e.kernel).1 }),
          ))
  ]

  pub send_data-fd : (bytes : List ℕ) (e : Env p) → (send_data p bytes e).1.socket.fd ≡ e.socket.fd
  unfolding send_data
  send_data-fd bytes e = ground (arith, write_direct-fd bytes e, write_cached-fd bytes e)
