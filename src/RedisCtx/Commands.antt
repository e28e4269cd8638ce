-- ===== src/RedisCtx/Commands.antt =====
-- redis-pool/src/_RedisHeader.cpp: the commands of `RedisCtx`. Each public one takes the object's lock
-- for its whole run, so the model runs it in one piece.
pub mod Reconnect
pub mod Valid
pub mod Runs
pub mod Effects
pub mod Leaks
mod Tests
use functions.Base.{
  ℕ, zero, suc, ◌+◌, ◌%◌, ◌^◌, Bool, true, false, not, List, [], ◌∷◌, ◌++◌, Option, none, some, leb,
  ltb, ◌==◌, ◌&&◌, ◌||◌, if◌then◌else◌,
}
use functions.Hiredis.{Hiredis}
use functions.RedisCtx.{
  Redis, M, ◌>>=◌, ◌>>◌, pure, on_ctx, chk_valid, max_commit_cnt, close, execute, reconn,
}
use functions.Printf.{bytes}

-- `s.find(t)` finds something.
begins : List ℕ → List ℕ → Bool
begins [] s = true
begins (a ∷ t) [] = false
begins (a ∷ t) (b ∷ s) = a == b && begins t s

contains : List ℕ → List ℕ → Bool
unfolding begins
contains t [] = begins t []
contains t (b ∷ s) = begins t (b ∷ s) || contains t s

-- The strings of the elements; `none` where one is NULL, of which `std::string` cannot be made.
strings_of : List (Option (List ℕ)) → Option (List (List ℕ))
strings_of [] = some []
strings_of (none ∷ es) = none
strings_of (some k ∷ es) = elim (strings_of es) [ none ↦ none | some ks ↦ some (k ∷ ks) ]

-- The keys that the loop of `getPatternKeys` keeps: all, or those without the excepted text.
kept_keys : List ℕ → List (List ℕ) → List (List ℕ)
kept_keys except [] = []
kept_keys [] (k ∷ ks) = k ∷ kept_keys [] ks
kept_keys (e ∷ es) (k ∷ ks) =
    let rest = kept_keys (e ∷ es) ks in if contains (e ∷ es) k then rest else k ∷ rest

-- The public methods of `RedisCtx` that talk to the server.
pub data Call (Args : Type 0) : Type 0 where
  reconnects commits : Call Args
  operates appends : Args → Call Args
  operates_cmd queries deletes : List ℕ → Call Args
  deletes_except : List ℕ → List ℕ → Call Args

module _ (h : Hiredis) where
  open h use {World, Context, Reply, Args}

  -- `if (chkValid()) … else …`
  abbrev when_valid : {A : Type 0} → M Context World A → A → M Context World A
  when_valid m other c w = if chk_valid c then m c w else pure other c w

  -- `if (!bOk) reconn();`
  or_reconn : Bool → M Context World Bool
  or_reconn true = pure true
  or_reconn false = do reconn h; pure false

  -- `if (NULL == reply) reconn();`
  reply_or_reconn : Option Reply → M Context World (Option Reply)
  reply_or_reconn (some r) = pure (some r)
  reply_or_reconn none = do reconn h; pure none

  pub operation : Args → M Context World (Option Reply)
  operation args = when_valid (on_ctx (λ x. h.vcommand x args)) none >>= reply_or_reconn

  pub operation_cmd : List ℕ → M Context World (Option Reply)
  operation_cmd cmd = when_valid (on_ctx (λ x. h.command x cmd)) none >>= reply_or_reconn

  -- `getPatternKeys` behind its command. A missing string faults.
  keys_of : List ℕ → Option Reply → M Context World (Option (List (List ℕ)))
  keys_of except none c w = some (none, c, w)
  keys_of except (some r) c w =
      if h.is_array r
      then (elim (strings_of (h.elements r)) [
        | none ↦ none
        | some ks ↦ some (some (kept_keys except ks), c, w)
      ])
      else some (some [], c, w)

  -- `none` where there was no reply. The keys stay empty where the reply is no array.
  get_pattern_keys : List ℕ → List ℕ → M Context World (Option (List (List ℕ)))
  get_pattern_keys pattern except = do
    reply ← on_ctx (λ x. h.command_arg x (bytes "KEYS ") pattern)
    keys_of except reply

  -- One DEL for each key, up to the first that gets no reply.
  del_keys : List (List ℕ) → M Context World Bool
  del_keys [] = pure true
  del_keys (k ∷ ks) = do
    reply ← on_ctx (λ x. h.command_arg x (bytes "DEL ") k)
    elim reply [ none ↦ pure false | some r ↦ del_keys ks ]

  find_and_delete : List ℕ → List ℕ → M Context World Bool
  find_and_delete pattern except = do
    keys ← get_pattern_keys pattern except
    elim keys [ none ↦ pure false | some ks ↦ del_keys ks ]

  pub del_pattern_keys_except : List ℕ → List ℕ → M Context World Bool
  del_pattern_keys_except pattern except =
      when_valid (find_and_delete pattern except) false >>= or_reconn

  -- The overload with no excepted text keeps every key.
  pub del_pattern_keys : List ℕ → M Context World Bool
  del_pattern_keys pattern = when_valid (find_and_delete pattern []) false >>= or_reconn

  pub query_debug : List ℕ → M Context World Bool
  query_debug cmd = when_valid (execute h cmd) false >>= or_reconn

  -- The loop of `getReplies` over the replies that are still due: it stops at the first failure.
  read_replies : ℕ → M Context World Bool
  read_replies zero = pure true
  read_replies (suc n) = do
    got ← on_ctx (λ x w. let r = h.get_reply x w in (r.0, r.2))
    elim got [ false ↦ pure false | true ↦ read_replies n ]

  abbrev reset_app_cnt : M Context World (Unit {0})
  reset_app_cnt c w = some (tt, record c { app_cnt = 0 }, w)

  -- A fault where `malloc` gives no array, which is not tested.
  pub get_replies : M Context World Bool
  get_replies c w =
      if ltb 0 c.app_cnt
      then (if h.allocates c.app_cnt w
          then (do ret ← read_replies c.app_cnt; reset_app_cnt; pure ret) c w
          else none)
      else pure true c w

  abbrev count_append : M Context World ℕ
  count_append c w = let n = (c.app_cnt + 1) % 2 ^ 32 in some (n, record c { app_cnt = n }, w)

  append_v : Args → M Context World Bool
  append_v args = do
    appended ← on_ctx (λ x. h.vappend_command x args)
    elim appended [
      | false ↦ pure false
      | true ↦ count_append >>= λ n. if leb max_commit_cnt n then get_replies else pure true
    ]

  pub append_cmd : Args → M Context World Bool
  append_cmd args = when_valid (append_v args) false >>= or_reconn

  pub commit : M Context World Bool
  commit = when_valid get_replies false >>= or_reconn

  -- One call of a public method, its result forgotten.
  pub call : Call Args → M Context World (Unit {0})
  call reconnects = do reconn h; pure tt
  call commits = do commit; pure tt
  call (operates a) = do operation a; pure tt
  call (appends a) = do append_cmd a; pure tt
  call (operates_cmd cmd) = do operation_cmd cmd; pure tt
  call (queries cmd) = do query_debug cmd; pure tt
  call (deletes pattern) = do del_pattern_keys pattern; pure tt
  call (deletes_except pattern except) = do del_pattern_keys_except pattern except; pure tt

  pub run : List (Call Args) → M Context World (Unit {0})
  run [] = pure tt
  run (k ∷ ks) = do call k; run ks
