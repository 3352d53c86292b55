-- ===== src/Prelude/Decimal.antt =====
-- `strconv.FormatInt`, and the words that are told from a formatted number.
use Prim.Native.Nat.{ℕ, zero, suc, ◌+◌, ◌/◌, ◌%◌}
use Prim.Native.String.{String, ◌++◌, count}
use text.Mathlib.TextLemmas.{append_assoc, append_inj, length-append, nil-append}
use text.Mathlib.Text.{◌==◌ as str_eq}
use text.Mathlib.TextEquality.{eq_iff}
use mathlib.Core.Path.{◌≡◌, refl, sym, ◌∙◌, ap}
use mathlib.Core.Logic.{◌≢◌, inl, inr}
use mathlib.Core.Bool.{Bool, true, false}
use native.Mathlib.Omega.{arith}
use eve_industry_planner_sta.Prelude.Tests.{ltb, Bool-cases, ◌==◌, if◌then◌else◌}
use eve_industry_planner_sta.Prelude.Int.{ℤ, pos, negsuc}

-- One decimal digit.
digit : ℕ → String
digit d =
    if d == 0
    then "0"
    else if d == 1
    then "1"
    else if d == 2
    then "2"
    else if d == 3
    then "3"
    else if d == 4
    then "4"
    else if d == 5
    then "5"
    else if d == 6
    then "6"
    else if d == 7
    then "7"
    else if d == 8
    then "8"
    else "9"

-- The decimal digits of a number, with fuel for the number of digits.
decimal : ℕ → ℕ → String
unfolding digit
decimal zero n = ""
decimal (suc f) n =
    let front = decimal f (n / 10) in if ltb n 10 then digit n else front ++ digit (n % 10)

-- strconv.FormatInt(i, 10). An `int64` has at most 19 digits, so 20 rounds are enough.
unfoldable pub format_int : ℤ → String
unfolding decimal
format_int (pos n) = decimal 20 n
format_int (negsuc n) = "-" ++ decimal 20 (n + 1)

format_int_runs : (format_int (pos 30000142) ≡ "30000142") × (format_int (negsuc 9) ≡ "-10")
unfolding format_int
format_int_runs = (refl, refl)

decimal-ends : (f n : ℕ) → (front : String) × (d : ℕ) × (decimal (suc f) n ≡ front ++ digit d)
unfolding decimal
decimal-ends f n = elim (Bool-cases (ltb n 10)) [
  | inl below ↦ ("", n, rw (below, decimal) (sym (nil-append (digit n))))
  | inr above ↦ (decimal f (n / 10), n % 10, rw (above, decimal))
]

-- A formatted number ends in a digit.
format_int-ends : (i : ℤ) → (front : String) × (d : ℕ) × (format_int i ≡ front ++ digit d)
unfolding format_int
format_int-ends (pos n) = decimal-ends 19 n
format_int-ends (negsuc n) =
    let (front, d, e) = decimal-ends 19 (n + 1) in
    ("-" ++ front, d, ap (λ s. "-" ++ s) e ∙ sym (append_assoc "-" front (digit d)))

if-both : (P : String → Type 0) (b : Bool) (x y : String) → P x → P y → P (if b then x else y)
if-both P true x y h k = h
if-both P false x y h k = k

-- What holds of each of the ten digits.
digit-all :
    (P : String → Type 0)
    → P "0"
    → P "1"
    → P "2"
    → P "3"
    → P "4"
    → P "5"
    → P "6"
    → P "7"
    → P "8"
    → P "9"
    → (d : ℕ) → P (digit d)
unfolding digit
digit-all P h0 h1 h2 h3 h4 h5 h6 h7 h8 h9 d = if-both P _ _ _ h0 (
    if-both P _ _ _ h1 (
      if-both P _ _ _ h2 (
        if-both P _ _ _ h3 (
          if-both P _ _ _ h4 (
            if-both P _ _ _ h5
              (if-both P _ _ _ h6 (if-both P _ _ _ h7 (if-both P _ _ _ h8 h9))))))))

count-digit : (d : ℕ) → count (digit d) ≡ 1
count-digit = digit-all (λ s. count s ≡ 1) refl refl refl refl refl refl refl refl refl refl

-- A word that ends in a letter that is no digit is no formatted number.
format_int-ne :
    (i : ℤ) (front last : String)
    → count last ≡ 1
    → ((d : ℕ) → digit d ≢ last)
    → format_int i ≢ front ++ last
format_int-ne i front last one differs same =
    let (front', d, e) = format_int-ends i in
    let joined : front' ++ digit d ≡ front ++ last = sym e ∙ same in
    let counts : count (front' ++ digit d) ≡ count (front ++ last) = ap count joined in
    differs d
      (append_inj joined (
        ground (
          arith,
          counts,
          one,
          count-digit d,
          length-append front' (digit d),
          length-append front last,
        ))).1

-- The last letters of the keys that are told from numbers.
DiffersFromDigits : String → Type 0
DiffersFromDigits last = (d : ℕ) → str_eq (digit d) last ≡ false

g-differs : DiffersFromDigits "g"
unfolding DiffersFromDigits
g-differs = digit-all (λ s. str_eq s "g" ≡ false) refl refl refl refl refl refl refl refl refl refl

d-differs : DiffersFromDigits "d"
unfolding DiffersFromDigits
d-differs = digit-all (λ s. str_eq s "d" ≡ false) refl refl refl refl refl refl refl refl refl refl

k-differs : DiffersFromDigits "k"
unfolding DiffersFromDigits
k-differs = digit-all (λ s. str_eq s "k" ≡ false) refl refl refl refl refl refl refl refl refl refl

pub format_int-ne_etag : (i : ℤ) → format_int i ≢ "etag"
unfolding DiffersFromDigits
format_int-ne_etag i =
    format_int-ne i "eta" "g" refl (λ d. ground (arith, g-differs d, eq_iff (digit d) "g"))

pub format_int-ne_last_updated : (i : ℤ) → format_int i ≢ "last_updated"
unfolding DiffersFromDigits
format_int-ne_last_updated i =
    format_int-ne i "last_update" "d" refl (λ d. ground (arith, d-differs d, eq_iff (digit d) "d"))

pub format_int-ne_refresh_lock : (i : ℤ) → format_int i ≢ "refresh_lock"
unfolding DiffersFromDigits
format_int-ne_refresh_lock i =
    format_int-ne i "refresh_loc" "k" refl (λ d. ground (arith, k-differs d, eq_iff (digit d) "k"))
