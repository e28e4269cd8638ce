-- ===== src/Client/Requests.antt =====
-- redis_client.cpp: a command goes from `append_cmd` through the queue to the socket of its key.
use functions.Base.{
  ℕ, zero, suc, ◌+◌, ◌-◌, ◌^◌, ◌≤◌, ◌<◌, ◌≡◌, refl, sym, ap, ◌∙◌, Bool, true, false, List, [], ◌∷◌,
  ◌++◌, map, Option, none, some, arith, length, length-append, append_assoc, append-nil, take, drop,
  take_exact, ltb, u32, add_u32, drop-append_right, take_all,
}
use mathlib.Core.Path.{subst}
use mathlib.Core.List.{map-append}
use functions.Base.Int.{pos}
use functions.Cache.{Pool}
use functions.Queue.{Queue, enqueue, empty, got, dequeue, actual_len}
use functions.Queue.Copy.{concat}
use functions.Queue.Segments.{Holds, used}
use functions.Queue.Enqueue.{Returns, offer, enqueue-Returns}
use functions.Queue.Dequeue.{take_out, hand_out, dequeue-Returns}
use functions.SocketSet.{Socket}
use functions.Client.Attempts.{serve_socket-Attempted}
use functions.Client.Places.{scene_of, placed, ServedOn, socket_of, serve-found, serve-not_found}
use functions.Client.{
  serve_socket, Conns, serve, word, word_at, append_cmd, cmd_buf_size, dequeue_buf_size,
  serve_packets, process_request_queue,
}

-- A request as it lies in the queue.
pub record RedisRequest : Type 0 where
  pub key : List ℕ
  pub cmd : List ℕ

abbrev pub encode_request : RedisRequest → List ℕ
encode_request r = (word (length r.key) ++ word (length r.cmd)) ++ (r.key ++ r.cmd)

-- A request that fits into the buffer of `append_cmd`.
abbrev pub IsShort : RedisRequest → Type 0
IsShort r = length r.key + length r.cmd ≤ cmd_buf_size

abbrev pub AreShort : List RedisRequest → Type 0
AreShort [] = Unit
AreShort (r ∷ rs) = IsShort r × AreShort rs

-- What the requests do one after the other; `none` as soon as one of them faults.
unfoldable pub serve_all : (p : Pool) → List RedisRequest → Conns p → Option (Conns p)
serve_all p [] c = some c
serve_all p (r ∷ rs) c = elim (serve p r.key r.cmd c) [ none ↦ none | some c' ↦ serve_all p rs c' ]

word_at-word : (n : ℕ) (rest : List ℕ) → n < 2 ^ 32 → word_at (word n ++ rest) ≡ n
unfolding word word_at
word_at-word n rest h = omega arith

length-encode_request :
    (r : RedisRequest) → length (encode_request r) ≡ 8 + length r.key + length r.cmd
unfolding word
length-encode_request r = omega (arith, length-append r.key r.cmd)

-- The parts of a message that holds one request.
module _ (r : RedisRequest) (h : IsShort r) where
  key_len-at : word_at (encode_request r) ≡ length r.key
  key_len-at =
      ap word_at (append_assoc (word (length r.key)) (word (length r.cmd)) (r.key ++ r.cmd))
      ∙ word_at-word (length r.key) (word (length r.cmd) ++ (r.key ++ r.cmd)) (omega arith)

  cmd_len-at : word_at (drop 4 (encode_request r)) ≡ length r.cmd
  unfolding word
  cmd_len-at = word_at-word (length r.cmd) (r.key ++ r.cmd) (omega arith)

  key-at : take (length r.key) (drop 8 (encode_request r)) ≡ r.key
  unfolding word
  key-at = take_exact (length r.key) r.key r.cmd refl

  cmd-at : take (length r.cmd) (drop (length r.key) (drop 8 (encode_request r))) ≡ r.cmd
  unfolding word
  cmd-at =
      ap (take (length r.cmd)) (drop-append_right (length r.key) r.key r.cmd (omega arith))
      ∙ (ap (λ n. take (length r.cmd) (drop n r.cmd)) {x = length r.key - length r.key} {y = 0}
            (omega arith)
          ∙ take_all (length r.cmd) r.cmd (omega arith))

  packet_len-eq : u32 (length r.key + length r.cmd + 8) ≡ length (encode_request r)
  packet_len-eq = omega (arith, length-encode_request r)

-- Behind the first request.
abbrev after_one : (p : Pool) → ℕ → RedisRequest → Option (Conns p) → Option (Conns p)
after_one p fuel r none = none
after_one p fuel r (some c) =
    let n = u32 (length r.key + length r.cmd + 8) in
    serve_packets p fuel (drop n (encode_request r)) (add_u32 0 n) (length (encode_request r)) c

serve_packets_step :
    (p : Pool) (fuel : ℕ) (r : RedisRequest) (c : Conns p)
    → IsShort r
    → serve_packets p (suc fuel) (encode_request r) 0 (length (encode_request r)) c
      ≡ after_one p fuel r (serve p r.key r.cmd c)
unfolding serve_packets
serve_packets_step p fuel r c h =
    let more : ltb 0 (length (encode_request r)) ≡ true = ground (arith, length-encode_request r) in
    let enough : ltb (length (encode_request r)) (8 + length r.key + length r.cmd) ≡ false =
      ground (arith, length-encode_request r) in
    ground (arith, more, enough, key_len-at r h, cmd_len-at r h, key-at r h, cmd-at r h)

serve_packets_end :
    (p : Pool) (fuel : ℕ) (rest : List ℕ) (n : ℕ) (c : Conns p)
    → serve_packets p (suc fuel) rest n n c ≡ some c
unfolding serve_packets
serve_packets_end p fuel rest n c =
    let over : ltb n n ≡ false = ground arith in rw (over, serve_packets)

-- The inner loop takes one request out of a message and ends.
serve_packets_one :
    (p : Pool) (fuel : ℕ) (r : RedisRequest) (c : Conns p)
    → IsShort r
    → 0 < fuel
    → serve_packets p (suc fuel) (encode_request r) 0 (length (encode_request r)) c
      ≡ serve p r.key r.cmd c
serve_packets_one p zero r c h f = absurd (omega arith)
serve_packets_one p (suc fuel) r c h f =
    serve_packets_step p (suc fuel) r c h ∙ go (serve p r.key r.cmd c)
  where
    go : (o : Option (Conns p)) → after_one p (suc fuel) r o ≡ o
    go none = refl
    go (some c') =
        let n = u32 (length r.key + length r.cmd + 8) in
        let rest = drop n (encode_request r) in
        ap (λ d. serve_packets p (suc fuel) rest d (length (encode_request r)) c') {x = add_u32 0 n}
          {y = length (encode_request r)} (omega (arith, length-encode_request r))
        ∙ serve_packets_end p fuel rest (length (encode_request r)) c'

-- The requests one after the other: each is attempted on the socket of its key, before the next.
abbrev pub AllServed : (p : Pool) → List RedisRequest → Conns p → Option (Conns p) → Type 0
AllServed p [] c o = o ≡ some c
AllServed p (r ∷ rs) c o = ServedOn p r.cmd c o (λ c'. AllServed p rs c' o) (socket_of p r.key c)

serve_all-AllServed :
    (p : Pool) (rs : List RedisRequest) (c : Conns p) → AllServed p rs c (serve_all p rs c)
unfolding serve_all
serve_all-AllServed p [] c = refl
serve_all-AllServed p (r ∷ rs) c = go (λ c'. serve_all-AllServed p rs c') (socket_of p r.key c) refl
  where
    go :
        ((c' : Conns p) → AllServed p rs c' (serve_all p rs c'))
        → (o : Option (ℕ × Socket)) → socket_of p r.key c ≡ o
        → ServedOn p r.cmd c
            (serve_all p (r ∷ rs) c)
            (λ c'. AllServed p rs c' (serve_all p (r ∷ rs) c))
            o
    go ih none e = rw (serve_all, serve-not_found p r.key r.cmd c e) refl
    go ih (some (i, s)) e =
        let d = serve_socket p r.cmd (scene_of p c s) in
        rw (serve_all, serve-found p r.key r.cmd c i s e)
          (d, serve_socket-Attempted p r.cmd (scene_of p c s), ih (placed p i d c))

-- What `process_request_queue` made of the queue and of the requests.
abbrev pub Served : (p : Pool) → Option (Queue × Conns p) → Option (Conns p) → Type 0
Served p (some (q, c)) (some c') = (c ≡ c') × Holds q []
Served p none none = Unit
Served p _ _ = ⊥

-- Behind a message.
abbrev after_got : (p : Pool) → ℕ → Bool → Queue → Option (Conns p) → Option (Queue × Conns p)
after_got p fuel has_block q none = none
after_got p fuel has_block q (some c) = process_request_queue p fuel has_block q c

process_empty :
    (p : Pool) (fuel : ℕ) (has_block : Bool) (q q' : Queue) (c : Conns p)
    → dequeue dequeue_buf_size has_block q ≡ some (empty, q')
    → process_request_queue p (suc fuel) has_block q c ≡ some (q', c)
unfolding process_request_queue
process_empty p fuel has_block q q' c e = rw (e, process_request_queue)

process_got :
    (p : Pool) (fuel : ℕ) (has_block in_block : Bool) (q q' : Queue) (r : RedisRequest)
    (c : Conns p)
    → IsShort r
    → dequeue dequeue_buf_size has_block q ≡ some (got in_block (encode_request r), q')
    → process_request_queue p (suc fuel) has_block q c
      ≡ after_got p fuel has_block q' (serve p r.key r.cmd c)
unfolding process_request_queue
process_got p fuel has_block in_block q q' r c h e =
    let one =
      serve_packets_one p (length (encode_request r)) r c h
        (omega (arith, length-encode_request r)) in
    rw (e, process_request_queue, one) (go (serve p r.key r.cmd c))
  where
    go :
        (o : Option (Conns p))
        → elim o as (λ x. Option (Queue × Conns p)) [
          | none ↦ none
          | some c' ↦ process_request_queue p fuel has_block q' c'
        ]
          ≡ after_got p fuel has_block q' o
    go none = refl
    go (some c') = refl

-- The buffer of the thread is large enough for each request.
fits_buffer :
    (r : RedisRequest) (has_block : Bool)
    → IsShort r
    → hand_out dequeue_buf_size has_block (encode_request r) ≡ got false (encode_request r)
unfolding hand_out
fits_buffer r has_block h = ground (arith, length-encode_request r)

pub process-Served :
    (p : Pool) (rs : List RedisRequest) (fuel : ℕ) (has_block : Bool) (q : Queue) (c : Conns p)
    → Holds q (map encode_request rs)
    → AreShort rs
    → length rs < fuel
    → Served p (process_request_queue p fuel has_block q c) (serve_all p rs c)
unfolding take_out serve_all
process-Served p rs zero has_block q c h s f = absurd (omega arith)
process-Served p [] (suc fuel) has_block q c h s f =
    let (q', e, holds, same, less) = dequeue-Returns dequeue_buf_size has_block q [] h in
    subst (λ x. Served p x (some c)) (sym (process_empty p fuel has_block q q' c e)) (refl, holds)
process-Served p (r ∷ rs) (suc fuel) has_block q c h s f =
    let (q', e, holds, same, less) =
      dequeue-Returns dequeue_buf_size has_block q (map encode_request (r ∷ rs)) h in
    subst (λ x. Served p x (serve_all p (r ∷ rs) c))
      (sym (
        process_got p fuel has_block false q q' r c s.0
          (e ∙ ap (λ x. some (x, q')) (fits_buffer r has_block s.0))))
      (go q' (λ c'. process-Served p rs fuel has_block q' c' holds s.1 (omega arith))
        (serve p r.key r.cmd c))
  where
    go :
        (q' : Queue)
        → ((c' : Conns p)
            → Served p (process_request_queue p fuel has_block q' c') (serve_all p rs c'))
        → (o : Option (Conns p))
        → Served p
            (after_got p fuel has_block q' o)
            (elim o [ none ↦ none | some c' ↦ serve_all p rs c' ])
    go q' ih none = tt
    go q' ih (some c') = ih c'

-- `append_cmd` puts the request behind those that are in the queue, or gives the code of `enqueue`.
append_cmd-Returns :
    (r : RedisRequest) (q : Queue) (bs : List (List ℕ))
    → IsShort r
    → Holds q bs
    → q.enqueue_pos + 2 ^ 31 ≤ 2 ^ 64
    → Returns q
        (append_cmd (some r.key) (some r.cmd) q)
        (offer q.size (encode_request r) bs).0
        (offer q.size (encode_request r) bs).1
unfolding append_cmd
append_cmd-Returns r q bs short h w =
    let pieces = (word (length r.key) ++ word (length r.cmd)) ∷ (r.key ++ r.cmd) ∷ [] in
    let e : concat pieces ≡ encode_request r =
      ap (λ x. (word (length r.key) ++ word (length r.cmd)) ++ x) (append-nil (r.key ++ r.cmd)) in
    let test : ltb cmd_buf_size (length r.key + length r.cmd) ≡ false = ground arith in
    rw test (
      subst (λ b. Returns q (enqueue pieces q) (offer q.size b bs).0 (offer q.size b bs).1) e
        (enqueue-Returns pieces q bs h w))

offer-room :
    (size : ℕ) (b : List ℕ) (bs : List (List ℕ))
    → 0 < length b
    → length b ≤ 2 ^ 30
    → used bs + actual_len (length b) ≤ size
    → offer size b bs ≡ (pos 0, bs ++ b ∷ [])
unfolding offer
offer-room size b bs z l h = ground arith

AreShort-append :
    (rs : List RedisRequest) (r : RedisRequest) → AreShort rs → IsShort r → AreShort (rs ++ r ∷ [])
AreShort-append [] r s h = (h, tt)
AreShort-append (x ∷ rs) r s h = (s.0, AreShort-append rs r s.1 h)

-- A caller's request that the queue has room for is answered with 0. The thread's next run over the queue
-- attempts the requests that wait and then this one, in their order, each on the socket to which the ring
-- leads for its key: with `send_data` of its command on an open socket; on a closed one that connects and
-- gets watched, after the caches are dropped; and not at all on one that stays closed. The run ends with
-- the queue empty, or with a fault where the ring is empty or leads to no socket.
pub append_cmd-Served :
    (p : Pool) (rs : List RedisRequest) (r : RedisRequest) (fuel : ℕ) (has_block : Bool) (q : Queue)
    (c : Conns p)
    → Holds q (map encode_request rs)
    → AreShort rs
    → IsShort r
    → q.enqueue_pos + 2 ^ 31 ≤ 2 ^ 64
    → used (map encode_request rs) + actual_len (length (encode_request r)) ≤ q.size
    → length rs + 1 < fuel
    → (q' : Queue) × (append_cmd (some r.key) (some r.cmd) q ≡ some (pos 0, q'))
      × (o : Option (Conns p)) × AllServed p (rs ++ r ∷ []) c o
      × Served p (process_request_queue p fuel has_block q' c) o
append_cmd-Served p rs r fuel has_block q c h s short w room f =
    let (q', e, holds, same, less) = append_cmd-Returns r q (map encode_request rs) short h w in
    let taken =
      offer-room q.size (encode_request r) (map encode_request rs)
        (omega (arith, length-encode_request r)) (omega (arith, length-encode_request r)) room in
    (
      q',
      e ∙ ap (λ o. some (o.0, q')) taken,
      serve_all p (rs ++ r ∷ []) c,
      serve_all-AllServed p (rs ++ r ∷ []) c,
      process-Served p (rs ++ r ∷ []) fuel has_block q' c
          (subst (Holds q') (ap (λ o. o.1) taken ∙ sym (map-append encode_request rs (r ∷ [])))
            holds)
          (AreShort-append rs r s short) (omega (arith, length-append rs (r ∷ []))),
    )
