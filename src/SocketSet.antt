-- ===== src/SocketSet.antt =====
-- redis-pool/src/socket_set.h and socket_set.cpp: a non-blocking socket with its two caches. The kernel
-- is a list of the answers that `write` or `read` gives next; behind its last answer it would block.
-- The loops that repeat an interrupted call recur on that list.
pub mod Send
pub mod Flush
pub mod Repeat
pub mod Receive
pub mod Keeps
mod Tests
use functions.Base.{
  ◌%◌, ◌^◌, ℕ, zero, suc, ◌+◌, ◌-◌, ◌^◌, min, Bool, true, false, ◌&&◌, not, List, [], ◌∷◌, ◌++◌,
  Option, none, some, length, take, drop, ltb, ◌==◌, if◌then◌else◌, sub_u32,
}
use functions.Base.Int.{of_bits, ℤ, pos, negsuc}
use functions.Cache.{Cache, Pool, contents, skip, append}

-- How `write` may answer: the number of bytes that it takes, or -1 with an `errno`.
pub data WriteAnswer : Type 0 where
  takes : ℕ → WriteAnswer
  write_again write_interrupted write_fails : WriteAnswer

-- How `read` may answer. No bytes mean that the peer closed the connection.
pub data ReadAnswer : Type 0 where
  gives : List ℕ → ReadAnswer
  read_again read_interrupted read_fails : ReadAnswer

-- `wire` is what the kernel took.
pub record Kernel : Type 0 where
  pub answers : List WriteAnswer
  pub wire : List ℕ

pub data Written : Type 0 where
  wrote : ℕ → Written
  blocked broken : Written

-- The most that one `write` of Linux takes.
abbrev pub max_write : ℕ
max_write = 2147479552

-- `write`, repeated while it is interrupted.
pub write_loop : List ℕ → List WriteAnswer → List ℕ → Written × Kernel
write_loop bytes [] wire = (blocked, record { answers = []; wire = wire })
write_loop bytes (takes n ∷ rs) wire =
    let k = min n (min (length bytes) max_write) in
    (wrote k, record { answers = rs; wire = wire ++ take k bytes })
write_loop bytes (write_again ∷ rs) wire = (blocked, record { answers = rs; wire = wire })
write_loop bytes (write_interrupted ∷ rs) wire = write_loop bytes rs wire
write_loop bytes (write_fails ∷ rs) wire = (broken, record { answers = rs; wire = wire })

pub write : List ℕ → Kernel → Written × Kernel
write bytes k = write_loop bytes k.answers k.wire

-- `fd` is `none` for -1. `pending_recv_buf` is not used.
pub record Socket : Type 0 where
  pub rc : Cache
  pub sc : Cache
  pub ip : ℕ
  pub fd : Option ℕ
  pub port : ℕ

abbrev pub valid : Socket → Bool
valid s = elim s.fd [ none ↦ false | some fd ↦ true ]

-- `r < (int)len`: no `r` is less than a length that the cast makes negative.
abbrev pub fewer : ℕ → ℕ → Bool
fewer r len = ltb r len && ltb len (2 ^ 31)

-- `reconnect`; `connected` is what `tcp_connect_server` returns.
unfoldable pub reconnect : Option Socket → Option ℕ → ℤ × Option Socket
reconnect none connected = (negsuc 0, none)
reconnect (some s) connected = elim s.fd [
  | some fd ↦ (pos 0, some s)
  | none ↦ elim connected [
    | none ↦ (negsuc 0, some (record s { fd = none }))
    | some fd ↦ (pos 0, some (record s { fd = some fd }))
  ]
]

-- A sum that is kept in an `int`.
abbrev pub int_of : ℕ → ℤ
int_of n = of_bits (n % 2 ^ 32)

-- The size of the buffer of `recv_data`.
abbrev pub buf_size : ℕ
buf_size = 131072

module _ (p : Pool) where
  open p use {State}

  -- What a call may change: the socket, the kernel and the memory pool.
  pub record Env : Type 0 where
    pub socket : Socket
    pub kernel : Kernel
    pub pool : State

  -- `sc.skip(n)`
  pub skip_sent : ℕ → Env → Env
  skip_sent n e =
      let r = skip p n e.socket.sc e.pool in
      record e { socket = record e.socket { sc = r.0 }; pool = r.1 }

  -- `__OUT`: the remaining bytes go to the cache.
  pub keep_rest : ℤ → List ℕ → Env → ℤ × Env
  keep_rest result [] e = (result, e)
  keep_rest result (b ∷ bs) e =
      let r = append p (b ∷ bs) e.socket.sc e.pool in
      let after = record e { socket = record e.socket { sc = r.1 }; pool = r.2 } in
      if r.0 then (result, after) else (negsuc 4, after)

  abbrev remaining : ℕ → List ℕ → List ℕ
  remaining r bytes = if fewer r (length bytes) then drop r bytes else []

  -- From `__WRITE1` on, behind a cache that was written.
  pub write_behind : List ℕ → Env → ℤ × Env
  write_behind bytes e =
      let w = write bytes e.kernel in
      let e' = record e { kernel = w.1 } in
      elim w.0 [
        | blocked ↦ (pos 0, e')
        | broken ↦ (negsuc 3, e')
        | wrote r ↦ keep_rest (pos r) (remaining r bytes) e'
      ]

  -- From `__WRITE_CACHE` on.
  pub write_cached : List ℕ → Env → ℤ × Env
  unfolding write_behind
  write_cached bytes e =
      let w = write (contents e.socket.sc) e.kernel in
      let e' = record e { kernel = w.1 } in
      elim w.0 [
        | blocked ↦ (pos 0, e')
        | broken ↦ (negsuc 3, skip_sent e.socket.sc.data_len e')
        | wrote r ↦
            if fewer r e.socket.sc.data_len then (pos 0, skip_sent r e') else write_behind bytes e'
      ]

  -- From `__WRITE2` on.
  pub write_direct : List ℕ → Env → ℤ × Env
  write_direct bytes e =
      let w = write bytes e.kernel in
      let e' = record e { kernel = w.1 } in
      elim w.0 [
        | blocked ↦ (negsuc 0, e')
        | broken ↦ (negsuc 3, e')
        | wrote r ↦ keep_rest (pos r) (remaining r bytes) e'
      ]

  -- `send_data` of a socket that is not NULL, which it answers with -2.
  pub send_data : List ℕ → Env → ℤ × Env
  send_data bytes e = elim e.socket.fd [
    | none ↦ (negsuc 2, e)
    | some fd ↦ if e.socket.sc.data_len == 0 then write_direct bytes e else write_cached bytes e
  ]

  pub send_data_cache : Env → ℤ × Env
  send_data_cache e = elim e.socket.fd [
    | none ↦ (negsuc 2, e)
    | some fd ↦
        let w = write (contents e.socket.sc) e.kernel in
        let e' = record e { kernel = w.1 } in
        if e.socket.sc.data_len == 0 then (pos 0, e) else elim w.0 [
          | blocked ↦ (pos 0, e')
          | broken ↦ (negsuc 3, skip_sent e.socket.sc.data_len e')
          | wrote r ↦ (pos r, skip_sent r e')
        ]
  ]

  -- `rc.skip(rc.len())`
  abbrev pub drop_all_received : Cache → State → Cache × State
  drop_all_received c m = skip p c.data_len c m

  -- From `__READ` on, with the `n` bytes read so far, which are added up in an `int`: the result, the
  -- cache, the pool and the answers that are left. Behind the last answer `read` would block; the code has
  -- no bound of its own, and goes on as long as each `read` is interrupted or fills the buffer.
  pub read_loop : List ReadAnswer → ℕ → Cache → State → ℤ × Cache × State × List ReadAnswer
  read_loop [] n c m =
      if c.data_len == 0
      then (pos 0, c, m, [])
      else (let r = drop_all_received c m in (int_of n, r.0, r.1, []))
  read_loop (read_again ∷ rs) n c m =
      if c.data_len == 0
      then (pos 0, c, m, rs)
      else (let r = drop_all_received c m in (int_of n, r.0, r.1, rs))
  read_loop (read_interrupted ∷ rs) n c m = read_loop rs n c m
  read_loop (read_fails ∷ rs) n c m = (negsuc 3, c, m, rs)
  read_loop (gives [] ∷ rs) n c m = (negsuc 3, c, m, rs)
  read_loop (gives (b ∷ bs) ∷ rs) n c m =
      let got = take buf_size (b ∷ bs) in
      let a = append p got c m in
      let rest = read_loop rs (n + length got) a.1 a.2 in
      if not a.0
      then (negsuc 4, a.1, a.2, rs)
      else if ltb (length got) buf_size
      then (if a.1.data_len == 0
          then (int_of (n + length got), a.1, a.2, rs)
          else (let r = drop_all_received a.1 a.2 in (int_of (n + length got), r.0, r.1, rs)))
      else rest

  -- `recv_data` of a socket that is not NULL, which it answers with -3.
  pub recv_data : Socket → List ReadAnswer → State → ℤ × Socket × State × List ReadAnswer
  recv_data s rs m = elim s.fd [
    | none ↦ (negsuc 3, s, m, rs)
    | some fd ↦
        let start = if s.rc.data_len == 0 then (s.rc, m) else drop_all_received s.rc m in
        let r = read_loop rs 0 start.0 start.1 in (r.0, record s { rc = r.1 }, r.2, r.3)
  ]

  -- `clear`, without the `close` of the descriptor: both caches are emptied. `m` is the pool of both.
  pub clear_socket : Socket → State → Socket × State
  clear_socket s m = elim s.fd [
    | none ↦ (s, m)
    | some fd ↦
        let r = drop_all_received s.rc m in
        let t = drop_all_received s.sc r.1 in (record s { fd = none; rc = r.0; sc = t.0 }, t.1)
  ]
