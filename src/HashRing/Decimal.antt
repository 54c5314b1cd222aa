-- ===== src/HashRing/Decimal.antt =====
-- How `format!` and `str::parse` write and read a number: decimal digits as text.
use Prim.Native.Char.{Char, char}
use lane_switchboards.Base.{nat_eq, ℕ, zero, suc, ◌/◌, ◌%◌, String, ◌≡◌, refl, ltb, if◌then◌else◌}

-- The digit of a number below 10.
abbrev pub digit : ℕ → Char
digit zero = char 48 tt
digit (suc zero) = char 49 tt
digit (suc (suc zero)) = char 50 tt
digit (suc (suc (suc zero))) = char 51 tt
digit (suc (suc (suc (suc zero)))) = char 52 tt
digit (suc (suc (suc (suc (suc zero))))) = char 53 tt
digit (suc (suc (suc (suc (suc (suc zero)))))) = char 54 tt
digit (suc (suc (suc (suc (suc (suc (suc zero))))))) = char 55 tt
digit (suc (suc (suc (suc (suc (suc (suc (suc zero)))))))) = char 56 tt
digit _ = char 57 tt

-- Written in front of `rest`, the last digit first; the fuel is at least the number of digits.
unfoldable pub decimal_before : ℕ → ℕ → String → String
decimal_before zero n rest = rest
decimal_before (suc fuel) n rest =
    let more = decimal_before fuel (n / 10) (String.◌∷◌ (digit (n % 10)) rest) in
    if ltb n 10 then String.◌∷◌ (digit n) rest else more

-- Twenty digits write every number below 2 ^ 64.
unfoldable pub to_decimal : ℕ → String
unfolding decimal_before
to_decimal n = decimal_before 20 n String.[]

to_decimal_test : to_decimal 65535 ≡ "65535"
unfolding to_decimal
to_decimal_test = refl
