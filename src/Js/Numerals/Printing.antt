-- ===== src/Js/Numerals/Printing.antt =====
-- Numbers that are printed in decimal are read back.
use kalvora_js.Common.{
  ℕ, zero, suc, ◌+◌, ◌*◌, ◌/◌, ◌%◌, ◌<◌, ◌≡◌, refl, false, none, some, [], ◌∷◌, arith, ltb, Text,
  All, Bool-cases, Option-cases, ◌≢◌, ◌==◌, inl, inr, ap, ◌∙◌, ◌≤◌,
}
use mathlib.Core.Option
use kalvora_js.Js.{starts_with, trim_start, is_space, trim_id}
use kalvora_js.Common.Int.{pos}
use kalvora_js.Js.Numerals.{
  decimal_from, digit_of, digit_value, digits_prefix, numeral_from, parse_bigint, parse_int_10,
  parse_trimmed, radix_prefix, to_string,
}

abbrev pub IsDigit : ℕ → Type 0
IsDigit c = (b'0' ≤ c) × (c ≤ b'9')

decimal_from-IsDigit :
    (fuel n : ℕ) (acc : Text) → All IsDigit acc → All IsDigit (decimal_from fuel n acc)
unfolding decimal_from
decimal_from-IsDigit zero n acc h = h
decimal_from-IsDigit (suc fuel) n acc h =
    ground (arith, decimal_from-IsDigit fuel (n / 10) ((b'0' + n % 10) ∷ acc))

digit_of-digit : (d : ℕ) → d < 10 → digit_of 10 (b'0' + d) ≡ some d
unfolding digit_of digit_value
digit_of-digit d h = ground arith

numeral_from-digit :
    (v d : ℕ) (s : Text)
    → d < 10
    → numeral_from 10 v ((b'0' + d) ∷ s) ≡ numeral_from 10 (v * 10 + d) s
unfolding numeral_from
numeral_from-digit v d s h = rw (digit_of-digit d h, numeral_from)

numeral-decimal_from :
    (fuel n : ℕ) (acc : Text)
    → n < fuel
    → numeral_from 10 0 (decimal_from fuel n acc) ≡ numeral_from 10 n acc
unfolding decimal_from
numeral-decimal_from zero n acc h = absurd (omega arith)
numeral-decimal_from (suc fuel) n acc h = elim (Bool-cases (ltb n 10)) [
  | inl low ↦
      rw low
        (numeral_from-digit 0 n acc (ground arith) ∙ ap (λ t. numeral_from 10 t acc) (omega arith))
  | inr high ↦ rw high (
      numeral-decimal_from fuel (n / 10) _ (ground arith)
      ∙ numeral_from-digit (n / 10) (n % 10) acc (omega arith)
      ∙ ap (λ t. numeral_from 10 t acc) (omega arith))
]

pub to_string-IsDigit : (n : ℕ) → All IsDigit (to_string n)
unfolding to_string
to_string-IsDigit n = decimal_from-IsDigit (suc n) n [] tt

pub digit-no_space : (c : ℕ) → IsDigit c → is_space c ≡ false
unfolding is_space
digit-no_space c h = ground arith

pub digits-no_space : (s : Text) → All IsDigit s → All (λ c. is_space c ≡ false) s
digits-no_space [] h = tt
digits-no_space (c ∷ s) (p, h) = (digit-no_space c p, digits-no_space s h)

digits-radix_prefix : (s : Text) → All IsDigit s → radix_prefix s ≡ none
unfolding radix_prefix
digits-radix_prefix [] h = refl
digits-radix_prefix (c ∷ []) h = ground arith
digits-radix_prefix (c ∷ d ∷ s) h = ground arith

parse_trimmed-digits :
    (c : ℕ) (s : Text)
    → All IsDigit (c ∷ s)
    → parse_trimmed (c ∷ s) ≡ Option.map pos (numeral_from 10 0 (c ∷ s))
unfolding parse_trimmed starts_with
parse_trimmed-digits c s h = rw (digits-radix_prefix (c ∷ s) h) (ground arith)

decimal_from-cons :
    (fuel n : ℕ) (acc : Text) → n < fuel → (c : ℕ) × (s : Text) × (decimal_from fuel n acc ≡ c ∷ s)
unfolding decimal_from
decimal_from-cons zero n acc h = absurd (omega arith)
decimal_from-cons (suc fuel) n acc h = elim (Bool-cases (ltb n 10)) [
  | inl low ↦ (b'0' + n, acc, rw low)
  | inr high ↦ rw high (decimal_from-cons fuel (n / 10) _ (ground arith))
]

parse_bigint_of_digits :
    (c : ℕ) (s : Text) (n : ℕ)
    → All IsDigit (c ∷ s)
    → numeral_from 10 0 (c ∷ s) ≡ some n
    → parse_bigint (c ∷ s) ≡ some (pos n)
unfolding parse_bigint
parse_bigint_of_digits c s n h e =
    rw (trim_id (c ∷ s) (digits-no_space (c ∷ s) h), parse_trimmed-digits c s h, e)

-- The digits of a number, of which there is one at least, and what they denote.
pub to_string-digits :
    (n : ℕ)
    → (c : ℕ) × (s : Text) × (to_string n ≡ c ∷ s)
      × All IsDigit (c ∷ s)
      × (numeral_from 10 0 (c ∷ s) ≡ some n)
unfolding to_string
to_string-digits n =
    let (c, s, e) = decimal_from-cons (suc n) n [] (omega arith) in
    let whole : numeral_from 10 0 (decimal_from (suc n) n []) ≡ some n =
      numeral-decimal_from (suc n) n [] (omega arith) ∙ (unfold numeral_from in refl) in
    (c, s, e, rw e at (to_string-IsDigit n), rw e at whole)

-- `BigInt(n.toString())` is `n`.
pub parse_bigint-to_string : (n : ℕ) → parse_bigint (to_string n) ≡ some (pos n)
parse_bigint-to_string n =
    let (c, d, e, digits, whole) = to_string-digits n in
    rw e (parse_bigint_of_digits c d n digits whole)

digit_some : (c : ℕ) → IsDigit c → digit_of 10 c ≢ none
unfolding digit_of digit_value
digit_some c h = ground arith

digits_prefix-numeral :
    (v : ℕ) (s : Text) → All IsDigit s → digits_prefix 10 (some v) s ≡ numeral_from 10 v s
unfolding digits_prefix numeral_from
digits_prefix-numeral v [] h = refl
digits_prefix-numeral v (c ∷ s) (p, h) = elim (Option-cases (digit_of 10 c)) [
  | inl bad ↦ absurd (digit_some c p bad)
  | inr (d, is) ↦ rw (is, digits_prefix, numeral_from) (digits_prefix-numeral (v * 10 + d) s h)
]

digits_prefix-start :
    (c : ℕ) (s : Text)
    → All IsDigit (c ∷ s)
    → digits_prefix 10 none (c ∷ s) ≡ numeral_from 10 0 (c ∷ s)
unfolding digits_prefix numeral_from
digits_prefix-start c s (p, h) = elim (Option-cases (digit_of 10 c)) [
  | inl bad ↦ absurd (digit_some c p bad)
  | inr (d, is) ↦
      rw (is, digits_prefix, numeral_from)
        (digits_prefix-numeral d s h ∙ ap (λ v. numeral_from 10 v s) (omega arith))
]

pub no_sign : (c : ℕ) → IsDigit c → ((b'-' == c) ≡ false) × ((b'+' == c) ≡ false)
no_sign c h = (ground arith, ground arith)

parse_int_10_of_digits :
    (c : ℕ) (s : Text) (n : ℕ)
    → All IsDigit (c ∷ s)
    → numeral_from 10 0 (c ∷ s) ≡ some n
    → parse_int_10 (c ∷ s) ≡ some (pos n)
unfolding parse_int_10 starts_with
parse_int_10_of_digits c s n (p, h) e =
    let (minus, plus) = no_sign c p in
    let start = digits_prefix-start c s (p, h) ∙ e in
    rw (digit-no_space c p, parse_int_10, trim_start)
      (rw (minus, plus, starts_with)
        (rw start (rw (digit-no_space c p, trim_start) (rw (minus, starts_with) refl))))

-- `parseInt(n.toString())` is `n`.
pub parse_int_10-to_string : (n : ℕ) → parse_int_10 (to_string n) ≡ some (pos n)
parse_int_10-to_string n =
    let (c, d, e, digits, whole) = to_string-digits n in
    rw e (parse_int_10_of_digits c d n digits whole)
