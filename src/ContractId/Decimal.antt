-- ===== src/ContractId/Decimal.antt =====
-- src/protocol/contract-id.ts: `canonicalDecimal` prints the number that its digits denote.
use mathlib.Core.List.{append_assoc, append-nil}
use kalvora_js.Common.{
  ℕ, zero, suc, ◌+◌, ◌-◌, ◌*◌, ◌/◌, ◌%◌, ◌<◌, ◌≡◌, refl, sym, ap, ◌∙◌, true, false, [], ◌∷◌, ◌++◌,
  arith, ok, err, ltb, ◌==◌, if◌then◌else◌, Text, all, text_eq, Bool-cases, inl, inr, lt→ltb,
  text_eq_iff, ◌↔◌, ◌⊎◌,
}
use kalvora_js.Js.Numerals.{decimal_from, to_string}
use kalvora_js.ContractId.{is_digit, strip_zeros, canonical_decimal, not_digits}

-- The number that a text of digits denotes, read after the number `acc`.
unfoldable pub value_from : ℕ → Text → ℕ
value_from acc [] = acc
value_from acc (c ∷ s) = value_from (acc * 10 + (c - b'0')) s

decimal_from-append : (f n : ℕ) (acc : Text) → decimal_from f n acc ≡ decimal_from f n [] ++ acc
unfolding decimal_from
decimal_from-append zero n acc = refl
decimal_from-append (suc f) n acc = elim (Bool-cases (ltb n 10)) [
  | inl low ↦ rw low
  | inr high ↦ rw high (
      decimal_from-append f (n / 10) ((b'0' + n % 10) ∷ acc)
      ∙ sym (append_assoc (decimal_from f (n / 10) []) ((b'0' + n % 10) ∷ []) acc)
      ∙ ap (λ t. t ++ acc) (sym (decimal_from-append f (n / 10) ((b'0' + n % 10) ∷ []))))
]

decimal_from-fuel :
    (f g n : ℕ) (acc : Text) → n < f → n < g → decimal_from f n acc ≡ decimal_from g n acc
unfolding decimal_from
decimal_from-fuel zero g n acc hf hg = absurd (omega arith)
decimal_from-fuel (suc f) zero n acc hf hg = absurd (omega arith)
decimal_from-fuel (suc f) (suc g) n acc hf hg = elim (Bool-cases (ltb n 10)) [
  | inl low ↦ rw low
  | inr high ↦
      rw high (decimal_from-fuel f g (n / 10) ((b'0' + n % 10) ∷ acc) (ground arith) (ground arith))
]

-- One more digit behind a positive number is printed behind it.
to_string-snoc :
    (n d : ℕ) → 0 < n → d < 10 → to_string (n * 10 + d) ≡ to_string n ++ (b'0' + d) ∷ []
unfolding to_string decimal_from
to_string-snoc n d hn hd =
    let big : ltb (n * 10 + d) 10 ≡ false = ground arith in
    let quotient : (n * 10 + d) / 10 ≡ n = omega arith in
    let digit : (n * 10 + d) % 10 ≡ d = omega arith in
    rw (big, quotient, digit)
      (decimal_from-fuel (n * 10 + d) (suc n) n ((b'0' + d) ∷ []) (omega arith) (omega arith)
        ∙ decimal_from-append (suc n) n ((b'0' + d) ∷ []))

to_string-value_from :
    (n : ℕ) (s : Text)
    → 0 < n
    → all is_digit s ≡ true
    → to_string (value_from n s) ≡ to_string n ++ s
unfolding value_from
to_string-value_from n [] hn h = sym (append-nil (to_string n))
to_string-value_from n (c ∷ s) hn h =
    let digit : b'0' + (c - b'0') ≡ c = ground arith in
    to_string-value_from (n * 10 + (c - b'0')) s (omega arith) (ground arith)
    ∙ ap (λ t. t ++ s) (to_string-snoc n (c - b'0') hn (ground arith))
    ∙ append_assoc (to_string n) ((b'0' + (c - b'0')) ∷ []) s
    ∙ ap (λ t. to_string n ++ t ∷ s) digit

abbrev or_zero : Text → Text
or_zero s = if text_eq s [] then b'0' ∷ [] else s

to_string_digit : (d : ℕ) → d < 10 → to_string d ≡ (b'0' + d) ∷ []
unfolding to_string decimal_from
to_string_digit d h = rw (lt→ltb _ _ h)

or_zero-strip_zeros :
    (s : Text) → all is_digit s ≡ true → or_zero (strip_zeros s) ≡ to_string (value_from 0 s)
unfolding strip_zeros value_from
or_zero-strip_zeros [] h = sym (to_string_digit 0 (omega arith))
or_zero-strip_zeros (c ∷ s) h = elim (Bool-cases (c == b'0')) [
  | inl zero_digit ↦
      let e : 0 * 10 + (c - b'0') ≡ 0 = ground arith in
      rw (zero_digit, e) (or_zero-strip_zeros s (ground arith))
  | inr other ↦
      let e : 0 * 10 + (c - b'0') ≡ c - b'0' = omega arith in
      let digit : b'0' + (c - b'0') ≡ c = ground arith in
      rw (other, e)
        (sym (
          to_string-value_from (c - b'0') s (ground arith) (ground arith)
          ∙ ap (λ t. t ++ s) (to_string_digit (c - b'0') (ground arith))
          ∙ ap (λ t. t ∷ s) digit))
]

-- On a text of digits the result is the decimal numeral of the number denoted, whatever its
-- leading zeros.
canonical_decimal-to_string :
    (c : ℕ) (s : Text)
    → all is_digit (c ∷ s) ≡ true
    → canonical_decimal (c ∷ s) ≡ ok (to_string (value_from 0 (c ∷ s)))
unfolding canonical_decimal
canonical_decimal-to_string c s h = rw h (ap ok (or_zero-strip_zeros (c ∷ s) h))

-- Every other text is refused.
canonical_decimal_err :
    (v : Text) → (canonical_decimal v ≡ err not_digits) ↔ ((v ≡ []) ⊎ (all is_digit v ≡ false))
unfolding canonical_decimal
canonical_decimal_err v = ground (arith, text_eq_iff v [])
