-- ===== src/RedisConf.antt =====
-- redis-pool/src/RedisConf.h and RedisConf.cpp: the host list and the password of a JSON file.
-- jsoncpp, and the file behind it, are parameters.
pub mod Hosts
mod Tests
use functions.Base.{
  ℕ, zero, suc, ◌+◌, Bool, true, false, ◌&&◌, List, [], ◌∷◌, ◌++◌, Option, none, some,
  if◌then◌else◌,
}
use functions.Base.Int.{ℤ, pos, negsuc, is_positive, to_int}
use functions.Printf.{bytes}
use functions.Libc.{strtol}

-- What `load` meets at a path.
pub data File (V : Type 0) : Type 0 where
  missing malformed : File V
  parsed : V → File V

-- jsoncpp: `none` is an exception.
pub record Json : Type 1 where
  pub Value : Type 0
  -- The null value that a new `RedisConf` holds.
  pub null : Value
  pub open_file : List ℕ → File Value
  -- `v[name]`
  pub member : Value → List ℕ → Option Value
  pub as_string : Value → Option (List ℕ)
  pub is_array : Value → Bool
  -- The values `obj[i]` of an array.
  pub items : Value → List Value

pub record HostInfo : Type 0 where
  pub ip : List ℕ
  pub port : ℤ
  pub cnt : ℤ

abbrev pub is_empty : List ℕ → Bool
is_empty [] = true
is_empty (b ∷ bs) = false

abbrev pub is_valid : HostInfo → Bool
is_valid i = if is_empty i.ip then false else is_positive i.port && is_positive i.cnt

-- `Asc2Num`
pub asc2num : List ℕ → ℤ
unfolding strtol
asc2num [] = pos 0
asc2num (b ∷ bs) = to_int (strtol (b ∷ bs)).value

-- The return code of `readHosts` for an array; codes are the magnitudes of negative numbers.
hosts_code : Bool → List HostInfo → ℕ
hosts_code false vec = 1
hosts_code true [] = 2
hosts_code true (i ∷ vec) = 0

module _ (j : Json) where
  open j use {Value, open_file, member, as_string, is_array, items}

  pub record Conf : Type 0 where
    pub path : List ℕ
    pub passwd : List ℕ
    pub vec : List HostInfo
    pub content : Value

  text_member : Value → List ℕ → Option (List ℕ)
  text_member v name = elim (member v name) [ none ↦ none | some m ↦ as_string m ]

  read_item : Value → Option HostInfo
  read_item item = elim (text_member item (bytes "redis_ip")) [
    | none ↦ none
    | some ip ↦ elim (text_member item (bytes "redis_port")) [
      | none ↦ none
      | some port ↦ elim (text_member item (bytes "redis_num")) [
        | none ↦ none
        | some cnt ↦ some (record { ip = ip; port = asc2num port; cnt = asc2num cnt })
      ]
    ]
  ]

  -- The loop over the items: whether it ended with no exception, and the hosts pushed till then.
  read_items : List Value → List HostInfo → Bool × List HostInfo
  read_items [] vec = (true, vec)
  read_items (v ∷ vs) vec = elim (read_item v) [
    | none ↦ (false, vec)
    | some info ↦ read_items vs (if is_valid info then vec ++ (info ∷ []) else vec)
  ]

  load : List ℕ → Conf → ℕ × Conf
  load path c = elim (open_file path) [
    | missing ↦ (1, c)
    | malformed ↦ (1, record c { path = path })
    | parsed v ↦ (0, record c { path = path; content = v })
  ]

  read_hosts : Conf → ℕ × Conf
  read_hosts c = elim (member c.content (bytes "redis_hosts")) [
    | none ↦ (1, record c { vec = [] })
    | some obj ↦
        let r = read_items (items obj) [] in
        if is_array obj
        then (hosts_code r.0 r.1, record c { vec = r.1 })
        else (3, record c { vec = [] })
  ]

  read_passwd : Conf → ℕ × Conf
  read_passwd c = elim (text_member c.content (bytes "redis_passwd")) [
    | none ↦ (2, c)
    | some p ↦ (0, record c { passwd = p })
  ]

  abbrev and_then : ℕ × Conf → (Conf → ℕ × Conf) → ℕ × Conf
  and_then (zero, c) f = f c
  and_then (suc n, c) f = (suc n, c)

  pub parse : List ℕ → Conf → ℕ × Conf
  parse path c = and_then (and_then (load path c) read_hosts) read_passwd

  pub new_conf : Conf
  new_conf = record { path = []; passwd = []; vec = []; content = j.null }
