-- ===== src/Js/Numerals.antt =====
-- Numerals: `parseInt(text, 16)`, `toString(16)` of a byte, decimal printing, and `BigInt(text)`.
pub mod Printing
use kalvora_js.Common.{
  ℕ, zero, suc, ◌+◌, ◌-◌, ◌*◌, ◌/◌, ◌%◌, ◌<◌, ◌≡◌, refl, false, ◌&&◌, ◌||◌, Option, none, some, [],
  ◌∷◌, ◌++◌, arith, ltb, leb, if◌then◌else◌, length, Text, codes, drop, replicate, All, text_eq,
  Bool-cases, Option-cases, ◌≢◌, ◌==◌, inl, inr, ap, ◌∙◌, ◌≤◌,
}
use mathlib.Core.Option
use kalvora_js.Js.{starts_with, trim_start, trim, is_space, trim_id}
use kalvora_js.Common.Int.{ℤ, pos, negsuc}

-- The value of a digit up to `z`, as in `parseInt`.
unfoldable pub digit_value : ℕ → Option ℕ
digit_value c =
    if leb b'0' c && leb c b'9'
    then some (c - b'0')
    else if leb b'a' c && leb c b'z'
    then some (c - b'a' + 10)
    else if leb b'A' c && leb c b'Z'
    then some (c - b'A' + 10)
    else none

unfoldable pub digit_of : ℕ → ℕ → Option ℕ
unfolding digit_value
digit_of radix c = elim (digit_value c) [
  | none ↦ none
  | some d ↦ if ltb d radix then some d else none
]

-- The longest run of digits at the front; `none` where there is none (NaN).
unfoldable pub digits_prefix : ℕ → Option ℕ → Text → Option ℕ
unfolding digit_of
digits_prefix radix acc [] = acc
digits_prefix radix acc (c ∷ s) = elim (digit_of radix c) [
  | none ↦ acc
  | some d ↦ digits_prefix radix (elim acc [ none ↦ some d | some v ↦ some (v * radix + d) ]) s
]

abbrev negate : ℕ → ℤ
negate zero = pos 0
negate (suc n) = negsuc n

-- `parseInt(text, 16)`: white space, a sign and `0x` are skipped; `none` is NaN.
unfoldable pub parse_int_16 : Text → Option ℤ
unfolding trim_start digits_prefix
parse_int_16 text =
    let t = trim_start text in
    let signed = starts_with (codes "-") t || starts_with (codes "+") t in
    let body = if signed then drop 1 t else t in
    let prefixed = starts_with (codes "0x") body || starts_with (codes "0X") body in
    let digits = if prefixed then drop 2 body else body in
    elim (digits_prefix 16 none digits) [
      | none ↦ none
      | some v ↦ some (if starts_with (codes "-") t then negate v else pos v)
    ]

-- `parseInt(text, 10)`.
unfoldable pub parse_int_10 : Text → Option ℤ
unfolding trim_start digits_prefix
parse_int_10 text =
    let t = trim_start text in
    let signed = starts_with (codes "-") t || starts_with (codes "+") t in
    let body = if signed then drop 1 t else t in
    elim (digits_prefix 10 none body) [
      | none ↦ none
      | some v ↦ some (if starts_with (codes "-") t then negate v else pos v)
    ]

-- A digit below 16, in lower case.
unfoldable pub hex_digit : ℕ → ℕ
hex_digit d = if ltb d 10 then b'0' + d else b'a' + (d - 10)

-- `b.toString(16)` for a byte.
unfoldable pub to_string_16 : ℕ → Text
unfolding hex_digit
to_string_16 b = if ltb b 16 then hex_digit b ∷ [] else hex_digit (b / 16) ∷ hex_digit (b % 16) ∷ []

-- `s.padStart(2, '0')`
unfoldable pub pad_start_2 : Text → Text
pad_start_2 s = replicate (2 - length s) b'0' ++ s

-- Decimal digits, the last first found; the fuel is above the number, so that it never runs out.
unfoldable pub decimal_from : ℕ → ℕ → Text → Text
decimal_from zero n acc = acc
decimal_from (suc fuel) n acc =
    let more = decimal_from fuel (n / 10) ((b'0' + n % 10) ∷ acc) in
    if ltb n 10 then (b'0' + n) ∷ acc else more

-- `n.toString()` of a natural number.
unfoldable pub to_string : ℕ → Text
unfolding decimal_from
to_string n = decimal_from (suc n) n []

-- A whole text of digits, at least one.
unfoldable pub numeral_from : ℕ → ℕ → Text → Option ℕ
unfolding digit_of
numeral_from radix acc [] = some acc
numeral_from radix acc (c ∷ s) = elim (digit_of radix c) [
  | none ↦ none
  | some d ↦ numeral_from radix (acc * radix + d) s
]

unfoldable pub numeral : ℕ → Text → Option ℕ
unfolding numeral_from
numeral radix [] = none
numeral radix (c ∷ s) = numeral_from radix 0 (c ∷ s)

unfoldable pub radix_prefix : Text → Option ℕ
unfolding starts_with
radix_prefix t =
    if starts_with (codes "0x") t || starts_with (codes "0X") t
    then some 16
    else if starts_with (codes "0o") t || starts_with (codes "0O") t
    then some 8
    else if starts_with (codes "0b") t || starts_with (codes "0B") t
    then some 2
    else none

unfoldable pub parse_trimmed : Text → Option ℤ
unfolding numeral radix_prefix
parse_trimmed t = if text_eq t [] then some (pos 0) else elim (radix_prefix t) [
  | some radix ↦ Option.map pos (numeral radix (drop 2 t))
  | none ↦
      if starts_with (codes "-") t
      then Option.map negate (numeral 10 (drop 1 t))
      else Option.map pos (numeral 10 (if starts_with (codes "+") t then drop 1 t else t))
]

-- `BigInt(text)`; `none` is the SyntaxError.
unfoldable pub parse_bigint : Text → Option ℤ
parse_bigint text = parse_trimmed (trim text)
