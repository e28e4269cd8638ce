-- ===== src/AsynCtx.antt =====
-- redis-pool/src/RedisHeader.h and _RedisHeader.cpp: `AsynCtx`, one asynchronous connection. A context of
-- hiredis' asynchronous interface is a number, its address. Each method runs under the object's lock.
pub mod Balance
use functions.Base.{
  ℕ, ◌+◌, Bool, true, false, List, [], ◌∷◌, Option, none, some, drop, ◌==◌, ◌&&◌, if◌then◌else◌,
  add_u32,
}
use functions.RedisCtx.{Status, ctx_ok, ctx_init, ctx_close, gen_key, max_vnode_cnt}

pub record Asyn : Type 0 where
  pub timeout : ℕ
  pub port : ℕ
  pub status : Status
  pub index : ℕ
  pub task_cnt : ℕ
  pub key : List ℕ
  pub ip : List ℕ
  pub ctx : Option ℕ

-- The constructor, which leaves `m_index` open.
unfoldable pub new_asyn : ℕ → Asyn
new_asyn any = record {
  timeout = 0;
  port = 0;
  status = ctx_init;
  index = any;
  task_cnt = 0;
  key = [];
  ip = [];
  ctx = none;
}

-- The library and the map of the pool from contexts to connections. `connects` is what
-- `redisAsyncConnect` returns next, a context with `0 != ctx->err`, and `accepts` whether
-- `redisAsyncCommand` returns REDIS_OK. `given` are the contexts that were returned, `dropped` those handed
-- to `redisAsyncDisconnect`, the last one first; `freed` are those that the library has freed since.
pub record Loop : Type 0 where
  pub connects : List (Option (ℕ × Bool))
  pub accepts : List Bool
  pub given : List ℕ
  pub dropped : List ℕ
  pub datas : List (ℕ × ℕ)
  pub freed : List ℕ

-- `findData`: the entry of a context.
unfoldable pub find_data : ℕ → List (ℕ × ℕ) → Option ℕ
find_data x [] = none
find_data x ((y, i) ∷ ds) = if x == y then some i else find_data x ds

-- `putData`: an entry that is there stays.
unfoldable pub put_data : ℕ → ℕ → List (ℕ × ℕ) → List (ℕ × ℕ)
put_data x i ds = elim (find_data x ds) [ none ↦ (x, i) ∷ ds | some j ↦ ds ]

-- `eraseData`
unfoldable pub erase_data : ℕ → List (ℕ × ℕ) → List (ℕ × ℕ)
erase_data x [] = []
erase_data x ((y, i) ∷ ds) = if x == y then erase_data x ds else (y, i) ∷ erase_data x ds

-- The addresses but one, which is in use again.
abbrev pub reuse : ℕ → List ℕ → List ℕ
reuse x [] = []
reuse x (y ∷ ys) = if x == y then reuse x ys else y ∷ reuse x ys

abbrev pub is_in : ℕ → List ℕ → Bool
is_in x [] = false
is_in x (y ∷ ys) = if x == y then true else is_in x ys

-- The object's pointer is one to a freed context.
abbrev pub dangles : Option ℕ → List ℕ → Bool
dangles none xs = false
dangles (some x) xs = is_in x xs

unfoldable pub next_connect : List (Option (ℕ × Bool)) → Option (ℕ × Bool)
next_connect [] = none
next_connect (a ∷ rest) = a

unfoldable pub next_accept : List Bool → Bool
next_accept [] = false
next_accept (a ∷ rest) = a

abbrev pub is_ok : Status → Bool
is_ok ctx_ok = true
is_ok _ = false

-- `redisAsyncCommand`, and the count of the tasks.
unfoldable pub send_task : Asyn → Loop → Bool × Asyn × Loop
unfolding next_accept
send_task c w =
    let w' = record w { accepts = drop 1 w.accepts } in
    if next_accept w.accepts
    then (true, record c { task_cnt = add_u32 c.task_cnt 1 }, w')
    else (false, c, w')

unfoldable pub set_timeout : ℕ → Asyn → Asyn
set_timeout sec c = record c { timeout = sec }

unfoldable pub set_host : List ℕ → ℕ → ℕ → Asyn → Asyn
set_host ip port n c = record c {
  ip = ip;
  port = port;
  index = n;
  key = gen_key ip port n max_vnode_cnt;
}

unfoldable pub chk_valid : Asyn → Bool
chk_valid c = elim c.ctx [ none ↦ false | some x ↦ is_ok c.status ]

unfoldable pub close : Asyn → Loop → Asyn × Loop
close c w =
    let closed : Asyn = record c { ctx = none; status = ctx_close; task_cnt = 0 } in
    elim c.ctx [ none ↦ (closed, w) | some x ↦ (closed, record w { dropped = x ∷ w.dropped }) ]

unfoldable pub fail_with : Asyn × Loop → Bool × Asyn × Loop
fail_with r = (false, r.0, r.1)

-- Behind `redisAsyncConnect`, for the connection at the place `i` of the pool.
unfoldable pub connected_at : ℕ → ℕ × Bool → Asyn → Loop → Bool × Asyn × Loop
connected_at i (x, err) c w =
    let c1 : Asyn = record c { ctx = some x } in
    let w1 : Loop = record w { given = x ∷ w.given; freed = reuse x w.freed } in
    let w2 : Loop = record w1 { datas = put_data x i w1.datas } in
    let r = send_task (record c1 { status = ctx_ok }) w2 in
    if err then fail_with (close c1 w1) else if r.0 then r else fail_with (close r.1 r.2)

unfoldable pub conn : ℕ → Asyn → Loop → Bool × Asyn × Loop
conn i c w =
    let w' : Loop = record w { connects = drop 1 w.connects } in
    elim (next_connect w.connects) [
      | none ↦ (false, record c { ctx = none }, w')
      | some a ↦ connected_at i a c w'
    ]

unfoldable pub reconn : ℕ → Asyn → Loop → Bool × Asyn × Loop
reconn i c w = conn i (close c w).0 (close c w).1

-- `operation`: a command that is not taken makes the connection anew.
unfoldable pub operation : ℕ → Asyn → Loop → Bool × Asyn × Loop
operation i c w =
    let r = send_task c w in
    let again = reconn i r.1 r.2 in
    let refused = reconn i c w in
    if chk_valid c
    then (if r.0 then r else (false, again.1, again.2))
    else (false, refused.1, refused.2)

-- `reply->type` is not looked at.
pub record Reply : Type 0 where
  pub str : Option (List ℕ)

-- `0 == strcmp(str, "OK")`
unfoldable pub is_ok_text : List ℕ → Bool
is_ok_text (a ∷ b ∷ []) = a == 79 && b == 75
is_ok_text _ = false

unfoldable pub is_ok_reply : Option Reply → Bool
is_ok_reply none = false
is_ok_reply (some r) = elim r.str [ none ↦ false | some s ↦ is_ok_text s ]

-- `callbackSelect`
unfoldable pub callback_select : Option Reply → Asyn → Loop → Asyn × Loop
callback_select reply c w = if is_ok_reply reply then (c, w) else close c w

-- `callbackCmdSet`
unfoldable pub callback_cmd_set : Option Reply → Asyn → Loop → Asyn × Loop
callback_cmd_set none c w = close c w
callback_cmd_set (some reply) c w = (c, w)
