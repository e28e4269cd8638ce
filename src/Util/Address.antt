-- ===== src/Util/Address.antt =====
-- util.c: `get_ipv4_address`, which reads a host and a port.
use functions.Base.{
  ℕ, ◌^◌, ◌<◌, ◌≡◌, ◌≢◌, refl, Bool, true, false, ◌&&◌, ◌||◌, not, List, [], ◌∷◌, ◌++◌, Option,
  none, some, arith, leb, ◌==◌, length, if◌then◌else◌, Bool-cases, inl, inr,
}
use functions.Base.Int.{ℤ, pos, negsuc}
use functions.Printf.{decimal}
use functions.Libc.{strtol}
use functions.Libc.Decimal.{strtol-decimal, decimal-ne-nil}

-- The text before the first colon, and the text behind it, which is empty where there is no colon.
pub split_host : List ℕ → List ℕ × List ℕ
split_host [] = ([], [])
split_host (c ∷ s) = let rest = split_host s in if c == b':' then ([], s) else (c ∷ rest.0, rest.1)

abbrev pub in_port_range : ℤ → Bool
in_port_range (pos n) = leb 1 n && leb n 65535
in_port_range (negsuc n) = false

abbrev pub port_of : ℤ → ℕ
port_of (pos n) = n
port_of (negsuc n) = 0

-- The port behind the colon, 0 where there is none.
pub read_port : List ℕ → Option ℕ
read_port [] = some 0
read_port (c ∷ s) =
    let r = strtol (c ∷ s) in
    if r.range_error || (not (r.consumed == length (c ∷ s)) || not (in_port_range r.value))
    then none
    else some (port_of r.value)

-- `get_ipv4_by_name` behind a failed `inet_aton`.
abbrev pub resolve : (List ℕ → Option ℕ) → (List ℕ → Option ℕ) → List ℕ → Option ℕ
resolve inet_aton by_name host = elim (inet_aton host) [ none ↦ by_name host | some ip ↦ some ip ]

-- What `get_ipv4_address` comes to: 0 with the address and the port, -1, or the read of `temp_addr` behind
-- `free(temp_addr)`, for the message on a bad port, which is undefined.
pub data Addressed : Type 0 where
  address : ℕ → ℕ → Addressed
  failed reads_freed : Addressed

abbrev pub address_of : Option ℕ → Option ℕ → Addressed
address_of none port = failed
address_of (some ip) none = reads_freed
address_of (some ip) (some port) = address ip port

-- `copied` says whether `strdup` found memory. The texts of the messages are left out.
pub get_ipv4_address : Bool → (List ℕ → Option ℕ) → (List ℕ → Option ℕ) → List ℕ → Addressed
get_ipv4_address copied inet_aton by_name addr =
    if copied
    then address_of (resolve inet_aton by_name (split_host addr).0) (read_port (split_host addr).1)
    else failed

abbrev pub HasNoColon : List ℕ → Type 0
HasNoColon [] = Unit
HasNoColon (c ∷ s) = (c ≢ b':') × HasNoColon s

split_host-append :
    (host rest : List ℕ) → HasNoColon host → split_host (host ++ (b':' ∷ rest)) ≡ (host, rest)
unfolding split_host
split_host-append [] rest h = refl
split_host-append (c ∷ s) rest h = ground (arith, h.0, split_host-append s rest h.1)

read_port-read :
    (s : List ℕ) (n : ℕ)
    → s ≢ []
    → strtol s ≡ record { value = pos n; consumed = length s; range_error = false }
    → read_port s ≡ (if leb 1 n && leb n 65535 then some n else none)
unfolding read_port
read_port-read [] n ne e = absurd (ne refl)
read_port-read (c ∷ s) n ne e = rw (e, whole) (ground arith)
  where
    whole : (length (c ∷ s) == length (c ∷ s)) ≡ true
    whole = ground arith

-- A host without a colon that `inet_aton` or the name service knows, a colon and a number below 2 ^ 63 in
-- decimal are read as the host's address and the port, where the number is a port from 1 to 65535;
-- where it is not, the code frees its copy of the text and then reads it.
pub get_ipv4_address-decimal :
    (inet_aton by_name : List ℕ → Option ℕ) (host : List ℕ) (ip n : ℕ)
    → HasNoColon host
    → resolve inet_aton by_name host ≡ some ip
    → n < 2 ^ 63
    → get_ipv4_address true inet_aton by_name (host ++ (b':' ∷ decimal n))
      ≡ (if leb 1 n && leb n 65535 then address ip n else reads_freed)
unfolding get_ipv4_address
get_ipv4_address-decimal inet_aton by_name host ip n h r lt =
    let parts = split_host-append host (decimal n) h in
    let port = read_port-read (decimal n) n (decimal-ne-nil n) (strtol-decimal n lt) in
    elim (Bool-cases (leb 1 n && leb n 65535)) [
      | inl e ↦ rw (parts, r, port, e) refl
      | inr e ↦ rw (parts, r, port, e) refl
    ]
