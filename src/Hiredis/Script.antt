-- ===== src/Hiredis/Script.antt =====
-- A server for the tests of the code that calls hiredis: it answers as a script of successes and
-- failures says, and with success behind its end.
use functions.Base.{
  ℕ, map, ◌+◌, refl, Bool, true, false, List, [], ◌∷◌, Option, none, some, if◌then◌else◌, arith,
}
use functions.Hiredis.{Hiredis, CountsContexts, AllSome, Dependable}

pub record Server : Type 0 where
  pub opened : ℕ
  pub freed : ℕ
  pub script : List Bool

abbrev pub answer : Server → Bool
answer s = elim s.script [ [] ↦ true | b ∷ bs ↦ b ]

abbrev pub next : Server → Server
next s = record s { script = elim s.script [ [] ↦ [] | b ∷ bs ↦ bs ] }

-- A reply is an array of two keys.
abbrev pub ask : Server → Option (List (List ℕ)) × Server
ask s = (if answer s then some ((97 ∷ []) ∷ (98 ∷ []) ∷ []) else none, next s)

pub all_some : (ks : List (List ℕ)) → AllSome (map some ks)
all_some [] = tt
all_some (k ∷ ks) = all_some ks

abbrev pub scripted : Hiredis
scripted = record {
  World = Server;
  Context = Unit {0};
  Reply = List (List ℕ);
  Args = List ℕ;
  connect = λ ip port timeout s.
      if answer s then (some tt, record (next s) { opened = s.opened + 1 }) else (none, next s);
  has_err = λ x s. false;
  command = λ x cmd s. ask s;
  command_arg = λ x cmd arg s. ask s;
  vcommand = λ x a s. ask s;
  vappend_command = λ x a s. (answer s, next s);
  get_reply = λ x s. (answer s, (ask s).0, next s);
  free = λ x s. record s { freed = s.freed + 1 };
  is_error = λ r. false;
  is_array = λ r. true;
  elements = λ r. map some r;
  allocates = λ n s. true;
}

abbrev pub scripted-Dependable : Dependable scripted
scripted-Dependable = record { key_strings = λ x pattern w r e a. all_some r; memory = λ n w. refl }

abbrev pub scripted_counts : CountsContexts scripted
scripted_counts = record {
  opened = λ s. s.opened;
  freed = λ s. s.freed;
  connect_none = λ ip port timeout w w' e. ground arith;
  connect_some = λ ip port timeout w w' x e. ground arith;
  free_one = λ x w. (refl, refl);
  command_none = λ x cmd w. (refl, refl);
  command_arg_none = λ x cmd arg w. (refl, refl);
  vcommand_none = λ x a w. (refl, refl);
  vappend_command_none = λ x a w. (refl, refl);
  get_reply_none = λ x w. (refl, refl);
}

-- Nothing has happened, and the script says what comes.
abbrev pub playing : List Bool → Server
playing bs = record { opened = 0; freed = 0; script = bs }
