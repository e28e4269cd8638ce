-- ===== src/RedisConf/Tests.antt =====
-- Tests and witnesses for RedisConf.cpp.
use functions.Base.{
  ℕ, ◌≡◌, ◌≢◌, refl, true, false, List, [], ◌∷◌, Option, none, some, length, ◌==◌, if◌then◌else◌,
}
use functions.Base.Int.{negsuc}
use functions.Printf.{bytes}
use functions.RedisConf.{parsed, Json, Conf, parse, asc2num}
use functions.RedisConf.Hosts.{AllValid, parse-AllValid}

-- The values of a file with one host.
data Toy : Type 0 where
  nothing whole hosts item : Toy
  text : List ℕ → Toy

abbrev toy_member : Toy → List ℕ → Option Toy
toy_member whole name = if length name == 11 then some hosts else some (text (bytes "secret"))
toy_member item name =
    if length name == 8 then some (text (bytes "10.0.0.1")) else some (text (bytes "2"))
toy_member _ name = none

abbrev toy_json : Json
toy_json = record {
  Value = Toy;
  null = nothing;
  open_file = λ path. parsed whole;
  member = toy_member;
  as_string = λ v. elim v [ text s ↦ some s | _ ↦ none ];
  is_array = λ v. elim v [ hosts ↦ true | _ ↦ false ];
  items = λ v. elim v [ hosts ↦ item ∷ [] | _ ↦ [] ];
}

abbrev empty_conf : Conf toy_json
empty_conf = record { path = []; passwd = []; vec = []; content = nothing }

asc2num_blank : asc2num (bytes " -12x") ≡ negsuc 11
unfolding asc2num
asc2num_blank = refl

parse-AllValid_example :
    AllValid (parse toy_json (bytes "redis.conf") empty_conf).1.vec
    × ((parse toy_json (bytes "redis.conf") empty_conf).0 ≡ 0
        → (parse toy_json (bytes "redis.conf") empty_conf).1.vec ≢ [])
parse-AllValid_example = parse-AllValid toy_json (bytes "redis.conf") empty_conf tt
