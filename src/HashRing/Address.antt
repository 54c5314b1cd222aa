-- ===== src/HashRing/Address.antt =====
-- src/hash_ring.rs: addresses `host:port`; and `host_from_addr` of src/tls.rs.
use Prim.Native.Char.{Char, code}
use lane_switchboards.Base.{
  nat_eq, ℕ, ◌+◌, ◌-◌, ◌*◌, ◌^◌, String, ◌≡◌, refl, Bool, ◌&&◌, Option, none, some, ltb, leb,
  if◌then◌else◌, ◌==◌,
}
use Prim.Native.String.{◌++◌ as str_append}
use lane_switchboards.HashRing.Decimal.{to_decimal}

-- `rsplit_once(':')`: what stands before and behind the last colon.
unfoldable pub rsplit_colon : String → Option (String × String)
rsplit_colon String.[] = none
rsplit_colon (String.◌∷◌ c s) = elim (rsplit_colon s) [
  | some (before, after) ↦ some (String.◌∷◌ c before, after)
  | none ↦ if code c == b':' then some (String.[], s) else none
]

-- The digits of a `u16` that follow a value read so far: an error on another character, and on a
-- value that does not fit.
unfoldable pub parse_digits : ℕ → String → Option ℕ
parse_digits n String.[] = some n
parse_digits n (String.◌∷◌ c s) =
    let n' = n * 10 + (code c - b'0') in
    let rest = parse_digits n' s in
    if leb b'0' (code c) && leb (code c) b'9' && ltb n' (2 ^ 16) then rest else none

abbrev is_plus : Char → Bool
is_plus c = code c == b'+'

-- `str::parse::<u16>`: an optional plus sign and at least one digit.
unfoldable pub parse_u16 : String → Option ℕ
unfolding parse_digits
parse_u16 String.[] = none
parse_u16 (String.◌∷◌ c String.[]) = parse_digits 0 (String.◌∷◌ c String.[])
parse_u16 (String.◌∷◌ c (String.◌∷◌ d s)) =
    parse_digits 0 (if is_plus c then String.◌∷◌ d s else String.◌∷◌ c (String.◌∷◌ d s))

-- The host and the port, or the kind of error; the source's errors also quote the text.
pub data AddressError : Type 0 where
  missing_port invalid_port : AddressError

pub data Parsed {ℓ} (A : Type ℓ) : Type ℓ where
  ok : A → Parsed A
  err : AddressError → Parsed A

unfoldable pub parse_host_port : String → Parsed (String × ℕ)
unfolding rsplit_colon parse_u16
parse_host_port addr = elim (rsplit_colon addr) [
  | none ↦ err missing_port
  | some (host, port_str) ↦ elim (parse_u16 port_str) [
    | none ↦ err invalid_port
    | some port ↦ ok (host, port)
  ]
]

unfoldable pub host_from_addr : String → Option String
unfolding rsplit_colon
host_from_addr addr = elim (rsplit_colon addr) [ none ↦ none | some (host, port) ↦ some host ]

-- `format!("{}:{}", host, port)`.
unfoldable pub format_addr : String → ℕ → String
unfolding to_decimal
format_addr host port = str_append host (str_append ":" (to_decimal port))

parse_host_port_tests :
    (parse_host_port "127.0.0.1:9001" ≡ ok ("127.0.0.1", 9001))
    × (parse_host_port "10.0.0.1" ≡ err missing_port)
    × (parse_host_port "10.0.0.1:notaport" ≡ err invalid_port)
    × (parse_host_port "h:65536" ≡ err invalid_port)
    × (parse_host_port "::1:+80" ≡ ok ("::1", 80))
unfolding parse_host_port
parse_host_port_tests = (refl, refl, refl, refl, refl)
