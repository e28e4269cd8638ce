-- ===== src/Queue/Fifo.antt =====
-- queue.cpp: any sequence of one thread's calls is served as by a list of packets.
use functions.Base.{
  ℕ, ◌+◌, ◌*◌, ◌^◌, ◌≤◌, ◌<◌, ◌≡◌, refl, sym, ap, Bool, List, [], ◌∷◌, arith, length, Option, some,
}
use functions.Base.Int.{ℤ, pos}
use functions.Queue.{Memory, Queue, Dequeued, enqueue, dequeue, init, ◌>>=◌}
use functions.Queue.Copy.{concat}
use functions.Queue.Packets.{IsSize}
use mathlib.Core.Path.{subst}
use functions.Queue.Segments.{Holds}
use functions.Queue.Start.{init-Holds}
use functions.Queue.Enqueue.{Returns, offer, enqueue-Returns}
use functions.Queue.Dequeue.{take_out, dequeue-Returns}

pub data Request : Type 0 where
  put : List (List ℕ) → Request
  get : ℕ → Bool → Request

pub data Answer : Type 0 where
  code : ℤ → Answer
  packet : Dequeued → Answer

-- The calls of a program, one after the other; `none` if one of them does not return.
answer : Request → Queue → Option (Answer × Queue)
answer (put pieces) q = enqueue pieces q >>= λ r. some (code r.0, r.1)
answer (get room has_block) q = dequeue room has_block q >>= λ r. some (packet r.0, r.1)

unfoldable pub answer_all : List Request → Queue → Option (List Answer × Queue)
unfolding answer enqueue dequeue
answer_all [] q = some ([], q)
answer_all (c ∷ cs) q =
    answer c q >>= λ r. answer_all cs r.1 >>= λ rest. some (r.0 ∷ rest.0, rest.1)

-- The same on the list.
serve : ℕ → Request → List (List ℕ) → Answer × List (List ℕ)
serve size (put pieces) bs = let r = offer size (concat pieces) bs in (code r.0, r.1)
serve size (get room has_block) bs = let r = take_out room has_block bs in (packet r.0, r.1)

unfoldable pub serve_all : ℕ → List Request → List (List ℕ) → List Answer × List (List ℕ)
unfolding serve offer take_out
serve_all size [] bs = ([], bs)
serve_all size (c ∷ cs) bs =
    let r = serve size c bs in let rest = serve_all size cs r.1 in (r.0 ∷ rest.0, rest.1)

answer-Returns :
    (c : Request) (q : Queue) (bs : List (List ℕ))
    → Holds q bs
    → q.enqueue_pos + 2 ^ 31 ≤ 2 ^ 64
    → Returns q (answer c q) (serve q.size c bs).0 (serve q.size c bs).1
unfolding answer serve
answer-Returns (put pieces) q bs h w =
    let (q', e, rest, same, less) = enqueue-Returns pieces q bs h w in (q', rw e, rest, same, less)
answer-Returns (get room has_block) q bs h w =
    let (q', e, rest, same, less) = dequeue-Returns room has_block q bs h in
    (q', rw e, rest, same, less)

-- A program's calls all return, with the answers that the list of packets gives.
pub answer_all-Returns :
    (cs : List Request) (q : Queue) (bs : List (List ℕ))
    → Holds q bs
    → q.enqueue_pos + length cs * 2 ^ 31 ≤ 2 ^ 64
    → (q' : Queue) × (answer_all cs q ≡ some ((serve_all q.size cs bs).0, q'))
      × Holds q' (serve_all q.size cs bs).1
unfolding answer_all serve_all
answer_all-Returns [] q bs h w = (q, refl, h)
answer_all-Returns (c ∷ cs) q bs h w =
    let (q', answered, holds, same, less) = answer-Returns c q bs h (omega arith) in
    let (q'', answers, after) =
      answer_all-Returns cs q' (serve q.size c bs).1 holds (omega arith) in
    (
      q'',
      rw (answered, ap (λ s. serve_all s cs (serve q.size c bs).1) (sym same)) (rw answers),
      subst (λ s. Holds q'' (serve_all s cs (serve q.size c bs).1).1) same after,
    )

-- A program that calls `init` with a power of 2 from 2 ^ 10 to 2 ^ 31 and then makes fewer than 2 ^ 33
-- calls gets an answer to each of them, and the answers are those of a list of packets: first in first out,
-- the bytes as they were put in, -1 when the ring has no room, -2 for no bytes or more than 2 ^ 30 bytes
-- or where `malloc` fails.
pub answer_all-init :
    (m : Memory) (n : ℕ) (on_enqueued : Bool) (q : Queue) (cs : List Request)
    → IsSize n
    → length cs < 2 ^ 33
    → (q0 : Queue) × (q' : Queue) × (init (some m) n on_enqueued q ≡ (pos 0, q0))
      × (answer_all cs q0 ≡ some ((serve_all n cs []).0, q'))
      × Holds q' (serve_all n cs []).1
answer_all-init m n on_enqueued q cs v small =
    let (q0, started, holds, size, zero_pos) = init-Holds m n on_enqueued q v in
    let (q', answers, after) = answer_all-Returns cs q0 [] holds (omega arith) in
    (
      q0,
      q',
      started,
      subst (λ s. answer_all cs q0 ≡ some ((serve_all s cs []).0, q')) size answers,
      subst (λ s. Holds q' (serve_all s cs []).1) size after,
    )
