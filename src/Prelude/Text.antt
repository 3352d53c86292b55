-- ===== src/Prelude/Text.antt =====
-- What the program uses of Go's `strings` and `strconv`, over the code points of a text.
use Prim.Native.Nat.{ℕ, ◌+◌, ◌-◌, ◌*◌, ◌^◌, ◌<◌, ◌≤◌}
use Prim.Native.Char.{code}
use Prim.Native.String.{String}
use mathlib.Core.Path.{◌≡◌, refl}
use mathlib.Core.Logic.{◌≢◌}
use mathlib.Core.Bool.{Bool, true, false, ◌&&◌}
use mathlib.Core.Option.{Option, none, some}
use mathlib.Core.List.{List, [], ◌∷◌}
use native.Mathlib.Omega.{arith}
use eve_industry_planner_sta.Prelude.Tests.{ltb, leb, ◌==◌, if◌then◌else◌}
use eve_industry_planner_sta.Prelude.Int.{ℤ, pos, negsuc, sub_ℕ}
use eve_industry_planner_sta.Prelude.Word.{InInt64}

abbrev pub codes : String → List ℕ
codes String.[] = []
codes (String.◌∷◌ c s) = code c ∷ codes s

-- strings.HasPrefix, the prefix first.
unfoldable pub is_prefix : List ℕ → List ℕ → Bool
is_prefix [] s = true
is_prefix (c ∷ p) [] = false
is_prefix (c ∷ p) (d ∷ s) = (c == d) && is_prefix p s

abbrev pub has_prefix : String → String → Bool
has_prefix s prefix = is_prefix (codes prefix) (codes s)

-- The digits of a number in base ten; `none` for any other character.
unfoldable pub digits_from : ℕ → List ℕ → Option ℕ
digits_from n [] = some n
digits_from n (c ∷ cs) =
    let rest = digits_from (n * 10 + (c - b'0')) cs in
    if leb b'0' c && leb c b'9' then rest else none

-- strconv.ParseUint without the range check: at least one digit, and digits only.
unfoldable pub parse_digits : List ℕ → Option ℕ
unfolding digits_from
parse_digits [] = none
parse_digits (c ∷ cs) = digits_from 0 (c ∷ cs)

-- The value of a magnitude with its sign on `bits` bits, or a range error.
unfoldable pub signed_in_range : ℕ → Bool → Option ℕ → Option ℤ
signed_in_range bits negative none = none
signed_in_range bits true (some n) = if leb n (2 ^ (bits - 1)) then some (sub_ℕ 0 n) else none
signed_in_range bits false (some n) = if ltb n (2 ^ (bits - 1)) then some (pos n) else none

-- strconv.ParseInt(s, 10, bits)
unfoldable pub parse_int : ℕ → List ℕ → Option ℤ
unfolding parse_digits
parse_int bits [] = none
parse_int bits (c ∷ cs) =
    if c == b'-'
    then signed_in_range bits true (parse_digits cs)
    else if c == b'+'
    then signed_in_range bits false (parse_digits cs)
    else signed_in_range bits false (parse_digits (c ∷ cs))

-- strconv.Atoi
unfoldable pub atoi : String → Option ℤ
unfolding parse_int signed_in_range
atoi s = parse_int 64 (codes s)

atoi_runs :
    (atoi "1200" ≡ some (pos 1200))
    × (atoi "-7" ≡ some (negsuc 6))
    × (atoi "" ≡ none)
    × (atoi "12s" ≡ none)
    × (atoi "9223372036854775808" ≡ none)
unfolding atoi
atoi_runs = (refl, refl, refl, refl, refl)

-- Each of the code points is a decimal digit: between 0 (48) and 9 (57).
abbrev pub AllDigits : List ℕ → Type 0
AllDigits [] = Unit
AllDigits (c ∷ cs) = (48 ≤ c) × (c ≤ 57) × AllDigits cs

-- The value of the digits after a number that was read.
abbrev pub value_from : ℕ → List ℕ → ℕ
value_from n [] = n
value_from n (c ∷ cs) = value_from (n * 10 + (c - 48)) cs

digits_from-value : (n : ℕ) (cs : List ℕ) → AllDigits cs → digits_from n cs ≡ some (value_from n cs)
unfolding digits_from
digits_from-value n [] h = refl
digits_from-value n (c ∷ cs) h =
    ground (arith, digits_from-value (n * 10 + (c - 48)) cs h.2, h.0, h.1)

-- A text of decimal digits with its value, which is below 2 ^ 31.
pub record IsNumber (id : String) (n : ℕ) : Type 0 where
  pub some_digits : id ≢ ""
  pub digits : AllDigits (codes id)
  pub value : value_from 0 (codes id) ≡ n
  pub below : n < 2_147_483_648

codes-none : (s : String) → codes s ≡ [] → s ≡ ""
codes-none String.[] h = refl
codes-none (String.◌∷◌ c s) h = absurd (ground (arith, h))

pub IsNumber-codes : (id : String) (n : ℕ) → IsNumber id n → codes id ≢ []
IsNumber-codes id n h e = h.some_digits (codes-none id e)

parse_int-digits :
    (cs : List ℕ) (n : ℕ)
    → cs ≢ []
    → AllDigits cs
    → value_from 0 cs ≡ n
    → n < 2_147_483_648
    → parse_int 32 cs ≡ some (pos n)
unfolding parse_int parse_digits signed_in_range
parse_int-digits [] n ne h e b = absurd (ne refl)
parse_int-digits (c ∷ cs) n ne h e b = ground (arith, digits_from-value 0 (c ∷ cs) h, h.0, h.1)

pub parse_int-IsNumber :
    (id : String) (n : ℕ) → IsNumber id n → parse_int 32 (codes id) ≡ some (pos n)
parse_int-IsNumber id n h =
    parse_int-digits (codes id) n (IsNumber-codes id n h) h.digits h.value h.below

value-below :
    (cs : List ℕ) (z : ℤ)
    → AllDigits cs
    → parse_int 32 cs ≡ some z
    → value_from 0 cs < 2_147_483_648
unfolding parse_int parse_digits signed_in_range
value-below [] z h e = omega arith
value-below (c ∷ cs) z h e = ground (arith, digits_from-value 0 (c ∷ cs) h, h.0, h.1, e)

-- Digits that parse on 32 bits are a number below 2 ^ 31.
pub IsNumber-parse_int :
    (id : String) (z : ℤ)
    → id ≢ ""
    → AllDigits (codes id)
    → parse_int 32 (codes id) ≡ some z
    → IsNumber id (value_from 0 (codes id))
IsNumber-parse_int id z ne h e = record {
  some_digits = ne;
  digits = h;
  value = refl;
  below = value-below (codes id) z h e;
}

signed_in_range-InInt64 :
    (negative : Bool) (o : Option ℕ) (z : ℤ) → signed_in_range 64 negative o ≡ some z → InInt64 z
unfolding signed_in_range
signed_in_range-InInt64 negative none z h = ground arith
signed_in_range-InInt64 true (some n) z h = ground arith
signed_in_range-InInt64 false (some n) z h = ground arith

parse_int-InInt64 : (cs : List ℕ) (z : ℤ) → parse_int 64 cs ≡ some z → InInt64 z
unfolding parse_int
parse_int-InInt64 [] z h = ground arith
parse_int-InInt64 (c ∷ cs) z h = ground (
  arith,
  signed_in_range-InInt64 true (parse_digits cs) z,
  signed_in_range-InInt64 false (parse_digits cs) z,
  signed_in_range-InInt64 false (parse_digits (c ∷ cs)) z,
)

-- A parsed header value is an `int`.
pub atoi-InInt64 : (s : String) (z : ℤ) → atoi s ≡ some z → InInt64 z
unfolding atoi
atoi-InInt64 s z h = parse_int-InInt64 (codes s) z h
