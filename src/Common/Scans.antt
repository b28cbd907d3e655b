-- ===== src/Common/Scans.antt =====
-- `strconv.Atoi`, and `fmt.Sscanf` with the format `%d%%`, for ints of 64 bits.
use Prim.Native.Nat.{ℕ, ◌+◌, ◌-◌, ◌*◌, ◌^◌}
use Prim.Native.Char.{code}
use Prim.Native.String.{String}
use mathlib.Core.Bool.{Bool, true, false, ◌&&◌}
use mathlib.Core.Option.{Option, none, some}
use package.extension_container.Common.Tests.{ltb, leb, eqb, if◌then◌else◌}
use package.extension_container.Common.Fields.{is_space}
use package.extension_container.Common.Int.{ℤ, pos, neg}

abbrev pub is_digit : ℕ → Bool
is_digit c = leb b'0' c && leb c b'9'

-- The value of the digits behind those read so far; `none` where another character stands.
unfoldable pub digits_value : ℕ → String → Option ℕ
digits_value acc String.[] = some acc
digits_value acc (String.◌∷◌ c s) =
    let rest = digits_value (acc * 10 + (code c - b'0')) s in
    if is_digit (code c) then rest else none

unfoldable pub in_range : Bool → Option ℕ → Option ℤ
in_range negative none = none
in_range true (some n) = if leb n (2 ^ 63) then some (neg n) else none
in_range false (some n) = if ltb n (2 ^ 63) then some (pos n) else none

unfoldable pub unsigned_value : String → Option ℕ
unfolding digits_value
unsigned_value String.[] = none
unsigned_value (String.◌∷◌ c s) = digits_value 0 (String.◌∷◌ c s)

-- `none` is an error, of the syntax or of the range.
unfoldable pub atoi : String → Option ℤ
unfolding in_range unsigned_value
atoi String.[] = none
atoi (String.◌∷◌ c s) =
    if eqb (code c) b'-'
    then in_range true (unsigned_value s)
    else if eqb (code c) b'+'
    then in_range false (unsigned_value s)
    else in_range false (unsigned_value (String.◌∷◌ c s))

-- White space in front of an operand; a line's end is none.
unfoldable pub skip_space : String → String
unfolding is_space
skip_space String.[] = ""
skip_space (String.◌∷◌ c s) =
    let rest = skip_space s in
    if is_space (code c) then (if eqb (code c) 10 then String.◌∷◌ c s else rest) else String.◌∷◌ c s

unfoldable pub percent_follows : String → Bool
unfolding skip_space
percent_follows s = elim (skip_space s) [ String.[] ↦ false | String.◌∷◌ c t ↦ eqb (code c) b'%' ]

-- The digits in front, `some` number of them read, up to a percent sign.
unfoldable pub digits_percent : Option ℕ → String → Option ℕ
unfolding percent_follows
digits_percent acc String.[] = none
digits_percent none (String.◌∷◌ c s) =
    let rest = digits_percent (some (code c - b'0')) s in if is_digit (code c) then rest else none
digits_percent (some n) (String.◌∷◌ c s) =
    let rest = digits_percent (some (n * 10 + (code c - b'0'))) s in
    if is_digit (code c) then rest else if percent_follows (String.◌∷◌ c s) then some n else none

unfoldable pub signed_percent : String → Option ℤ
unfolding digits_percent in_range
signed_percent String.[] = none
signed_percent (String.◌∷◌ c s) =
    if eqb (code c) b'-'
    then in_range true (digits_percent none s)
    else if eqb (code c) b'+'
    then in_range false (digits_percent none s)
    else in_range false (digits_percent none (String.◌∷◌ c s))

-- `Sscanf(s, "%d%%", &n)`; `none` is an error.
unfoldable pub sscanf_percent : String → Option ℤ
unfolding signed_percent skip_space
sscanf_percent s = signed_percent (skip_space s)
