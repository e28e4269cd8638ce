-- ===== src/Hiredis.antt =====
-- The hiredis client library, as far as redis-pool/src/_RedisHeader.cpp calls it. hiredis is not part
-- of the repository: it is a parameter of the model.
pub mod Script
use functions.Printf.{bytes}
use functions.Base.{[], ◌∷◌, ℕ, ◌+◌, Bool, true, false, List, Option, none, some, ◌≡◌}

pub record Hiredis : Type 1 where
  -- All that lies behind the calls: the sockets, the servers and their data.
  pub World : Type 0
  -- A `redisContext*` that is not NULL.
  pub Context : Type 0
  -- A `redisReply*` that is not NULL.
  pub Reply : Type 0
  -- A format with its `va_list`.
  pub Args : Type 0
  -- `redisConnectWithTimeout(ip, port, tv)`
  pub connect : List ℕ → ℕ → ℕ → World → Option Context × World
  -- `0 != ctx->err`
  pub has_err : Context → World → Bool
  -- `redisCommand(ctx, cmd)`
  pub command : Context → List ℕ → World → Option Reply × World
  -- `redisCommand(ctx, "… %s", arg)`, the format without its directive.
  pub command_arg : Context → List ℕ → List ℕ → World → Option Reply × World
  -- `redisvCommand(ctx, format, ap)`
  pub vcommand : Context → Args → World → Option Reply × World
  -- `REDIS_OK == redisvAppendCommand(ctx, format, ap)`
  pub vappend_command : Context → Args → World → Bool × World
  -- `redisGetReply`: whether it returned REDIS_OK, and the reply.
  pub get_reply : Context → World → Bool × Option Reply × World
  -- `redisFree(ctx)`
  pub free : Context → World → World
  -- `REDIS_REPLY_ERROR == reply->type` and `REDIS_REPLY_ARRAY == reply->type`.
  pub is_error : Reply → Bool
  pub is_array : Reply → Bool
  -- The strings `reply->element[i]->str`; `none` is NULL.
  pub elements : Reply → List (Option (List ℕ))
  -- Whether `malloc` grants an array for so many replies.
  pub allocates : ℕ → World → Bool

-- No string is missing.
abbrev pub AllSome : List (Option (List ℕ)) → Type 0
AllSome [] = Unit
AllSome (none ∷ es) = ⊥
AllSome (some k ∷ es) = AllSome es

-- What the code takes for granted and does not test: `KEYS` answers with an array only of strings, as
-- redis documents it, and `malloc` has memory for the replies.
pub record Dependable (h : Hiredis) : Type 0 where
  pub key_strings :
      (x : h.Context) (pattern : List ℕ) (w : h.World) (r : h.Reply)
      → (h.command_arg x (bytes "KEYS ") pattern w).0 ≡ some r
      → h.is_array r ≡ true
      → AllSome (h.elements r)
  pub memory : (n : ℕ) (w : h.World) → h.allocates n w ≡ true

-- How many contexts have been opened, and how many freed: connecting opens the context that it
-- returns, freeing frees one, and no other call does either.
pub record CountsContexts (h : Hiredis) : Type 0 where
  pub opened : h.World → ℕ
  pub freed : h.World → ℕ
  pub connect_none :
      (ip : List ℕ) (port timeout : ℕ) (w w' : h.World)
      → h.connect ip port timeout w ≡ (none, w')
      → (opened w' ≡ opened w) × (freed w' ≡ freed w)
  pub connect_some :
      (ip : List ℕ) (port timeout : ℕ) (w w' : h.World) (x : h.Context)
      → h.connect ip port timeout w ≡ (some x, w')
      → (opened w' ≡ opened w + 1) × (freed w' ≡ freed w)
  pub free_one :
      (x : h.Context) (w : h.World)
      → (opened (h.free x w) ≡ opened w) × (freed (h.free x w) ≡ freed w + 1)
  pub command_none :
      (x : h.Context) (cmd : List ℕ) (w : h.World)
      → (opened (h.command x cmd w).1 ≡ opened w) × (freed (h.command x cmd w).1 ≡ freed w)
  pub command_arg_none :
      (x : h.Context) (cmd arg : List ℕ) (w : h.World)
      → (opened (h.command_arg x cmd arg w).1 ≡ opened w)
        × (freed (h.command_arg x cmd arg w).1 ≡ freed w)
  pub vcommand_none :
      (x : h.Context) (a : h.Args) (w : h.World)
      → (opened (h.vcommand x a w).1 ≡ opened w) × (freed (h.vcommand x a w).1 ≡ freed w)
  pub vappend_command_none :
      (x : h.Context) (a : h.Args) (w : h.World)
      → (opened (h.vappend_command x a w).1 ≡ opened w)
        × (freed (h.vappend_command x a w).1 ≡ freed w)
  pub get_reply_none :
      (x : h.Context) (w : h.World)
      → (opened (h.get_reply x w).2 ≡ opened w) × (freed (h.get_reply x w).2 ≡ freed w)
