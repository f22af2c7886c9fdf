-- ===== src/Decoders/Supply.antt =====
-- src/query/decoders.ts: `decodeContractSupply` reads the supplies that a record is written from.
use native.Mathlib.Nat.{pow-suc}
use kalvora_js.Common.{
  ℕ, zero, suc, ◌+◌, ◌-◌, ◌*◌, ◌/◌, ◌%◌, ◌^◌, ◌<◌, ◌≤◌, ◌≡◌, ◌≢◌, refl, ap, ◌∙◌, true, false, List,
  [], ◌∷◌, ◌++◌, Text, ok, ◌==◌, ltb, length, take, drop, take-append_length, drop-append_length,
  All-append, length-append, any, All, arith, Bool-cases, inl, inr,
}
use kalvora_js.Js.{trim_id}
use kalvora_js.Js.Numerals.{numeral, to_string}
use kalvora_js.Js.Numerals.Printing.{IsDigit, to_string-digits, to_string-IsDigit, digits-no_space}
use kalvora_js.Bytes.{Bytes}
use kalvora_js.Decoders.{
  parse_trimmed_uint, parse_uint_string, read_varint, read_from, field_of, decode_fields,
  decode_contract_supply,
}
use kalvora_js.Decoders.Varint.{varint, varint_of, read_from-varint_of}

-- A field of length-delimited bytes, as the wire format writes it.
abbrev pub encode_field : ℕ → Bytes → Bytes → Bytes
encode_field k bytes rest = varint (k * 8 + 2) ++ (varint (length bytes) ++ (bytes ++ rest))

abbrev pub encode_fields : List (ℕ × Bytes) → Bytes
encode_fields [] = []
encode_fields ((k, bytes) ∷ fields) = encode_field k bytes (encode_fields fields)

-- What eight bytes can say.
abbrev pub limit : ℕ
limit = 72_057_594_037_927_936

read-varint : (n : ℕ) (rest : Bytes) → n < limit → read_varint (varint n ++ rest) ≡ ok (n, rest)
unfolding read_varint
read-varint n rest h =
    read_from-varint_of 7 0 0 n rest h (omega arith) ∙ ap (λ v. ok (v, rest)) (omega arith)

front_fits : (bytes rest : Bytes) → ltb (length (bytes ++ rest)) (length bytes) ≡ false
front_fits [] rest = ground arith
front_fits (b ∷ bytes) rest = ground (arith, front_fits bytes rest)

no_bytes : (tag : ℕ) (after : Bytes) → read_varint [] ≢ ok (tag, after)
unfolding read_varint read_from
no_bytes tag after e = cc e

module _ (utf8_decode : Bytes → Text) where
  decode_step :
      (fuel tag size : ℕ) (bytes after_tag after_size : Bytes) (fields : List (ℕ × Text))
      → read_varint bytes ≡ ok (tag, after_tag)
      → (tag % 8 == 2) ≡ true
      → read_varint after_tag ≡ ok (size, after_size)
      → ltb (length after_size) size ≡ false
      → decode_fields utf8_decode (suc fuel) bytes fields
        ≡ decode_fields utf8_decode fuel
            (drop size after_size)
            ((tag / 8, utf8_decode (take size after_size)) ∷ fields)
  unfolding decode_fields
  decode_step fuel tag size [] after_tag after_size fields tagged delimited sized fits =
      absurd (no_bytes tag after_tag tagged)
  decode_step fuel tag size (b ∷ bytes) after_tag after_size fields tagged delimited sized fits =
      rw (tagged, decode_fields) (rw delimited (rw sized (rw fits refl)))

  decode_field :
      (fuel k : ℕ) (bytes rest : Bytes) (fields : List (ℕ × Text))
      → k * 8 + 2 < limit
      → length bytes < limit
      → decode_fields utf8_decode (suc fuel) (encode_field k bytes rest) fields
        ≡ decode_fields utf8_decode fuel rest ((k, utf8_decode bytes) ∷ fields)
  decode_field fuel k bytes rest fields hk hb =
      let delimited : ((k * 8 + 2) % 8 == 2) ≡ true = ground arith in
      let number : (k * 8 + 2) / 8 ≡ k = omega arith in
      decode_step fuel (k * 8 + 2) (length bytes) (encode_field k bytes rest)
        (varint (length bytes) ++ (bytes ++ rest)) (bytes ++ rest) fields
        (read-varint (k * 8 + 2) (varint (length bytes) ++ (bytes ++ rest)) hk) delimited
        (read-varint (length bytes) (bytes ++ rest) hb) (front_fits bytes rest)
      ∙ rw (take-append_length bytes rest, drop-append_length bytes rest, number) refl

parse_uint_string-to_string : (n : ℕ) → parse_uint_string (to_string n) ≡ ok n
unfolding parse_uint_string parse_trimmed_uint numeral
parse_uint_string-to_string n =
    let (c, s, e, digits, whole) = to_string-digits n in
    rw (trim_id (to_string n) (digits-no_space (to_string n) (to_string-IsDigit n)))
      (rw e (rw (whole, parse_trimmed_uint, numeral) refl))

varint_of-binary :
    (groups n : ℕ) → n < 128 ^ suc groups → All (λ c. ltb 0xff c ≡ false) (varint_of groups n)
unfolding varint_of
varint_of-binary zero n h = (ground arith, tt)
varint_of-binary (suc groups) n h = elim (Bool-cases (ltb n 128)) [
  | inl low ↦ rw low (ground arith, tt)
  | inr high ↦
      let smaller : n / 128 < 128 ^ suc groups = omega (arith, h, pow-suc 128 (suc groups)) in
      rw high (ground arith, varint_of-binary groups (n / 128) smaller)
]

digits-binary : (s : Text) → All IsDigit s → All (λ c. ltb 0xff c ≡ false) s
digits-binary [] h = tt
digits-binary (c ∷ s) (p, h) = (ground arith, digits-binary s h)

any_binary : (s : Text) → All (λ c. ltb 0xff c ≡ false) s → any (λ c. ltb 0xff c) s ≡ false
any_binary [] h = refl
any_binary (c ∷ s) (p, h) = rw p (any_binary s h)

encode_field-binary :
    (k : ℕ) (bytes rest : Bytes)
    → k * 8 + 2 < limit
    → length bytes < limit
    → All (λ c. ltb 0xff c ≡ false) bytes
    → All (λ c. ltb 0xff c ≡ false) rest
    → All (λ c. ltb 0xff c ≡ false) (encode_field k bytes rest)
encode_field-binary k bytes rest hk hb h hr =
    All-append _ (varint (k * 8 + 2)) _ (varint_of-binary 7 (k * 8 + 2) hk) (
      All-append _ (varint (length bytes)) _ (varint_of-binary 7 (length bytes) hb)
        (All-append _ bytes rest h hr))

varint_of-some : (groups n : ℕ) → 1 ≤ length (varint_of groups n)
unfolding varint_of
varint_of-some zero n = omega arith
varint_of-some (suc groups) n = ground arith

two_turns :
    (k : ℕ) (bytes rest : Bytes)
    → (fuel : ℕ) × (length (encode_field k bytes rest) ≡ suc (suc fuel))
two_turns k bytes rest = (
  length (encode_field k bytes rest) - 2,
  omega (
    arith,
    length-append (varint (k * 8 + 2)) (varint (length bytes) ++ (bytes ++ rest)),
    length-append (varint (length bytes)) (bytes ++ rest),
    varint_of-some 7 (k * 8 + 2),
    varint_of-some 7 (length bytes),
  ),
)

-- A supply record that is written in the wire format from the two numbers, in decimal, is read as
-- these numbers, and the circulation is the current supply. This is so for numerals of less than 2^56
-- digits, with a decoder that keeps digits.
pub decode_contract_supply-encode :
    (utf8_decode : Bytes → Text) (max current : ℕ)
    → ((digits : Text) → All IsDigit digits → utf8_decode digits ≡ digits)
    → length (to_string max) < limit
    → length (to_string current) < limit
    → decode_contract_supply utf8_decode
        (encode_fields ((1, to_string max) ∷ (2, to_string current) ∷ []))
      ≡ ok (record { max_supply = max; current_supply = current; circulation = current })
unfolding decode_contract_supply decode_fields field_of
decode_contract_supply-encode utf8_decode max current keeps hmax hcurrent =
    let record_text = encode_fields ((1, to_string max) ∷ (2, to_string current) ∷ []) in
    let (fuel, size) = two_turns 1 (to_string max) (encode_fields ((2, to_string current) ∷ [])) in
    let binary = any_binary record_text (
      encode_field-binary 1 (to_string max) _ (omega arith) hmax
        (digits-binary (to_string max) (to_string-IsDigit max))
        (encode_field-binary 2 (to_string current) [] (omega arith) hcurrent
          (digits-binary (to_string current) (to_string-IsDigit current)) tt)) in
    let fields =
      decode_field utf8_decode (suc fuel) 1 (to_string max)
        (encode_fields ((2, to_string current) ∷ [])) [] (omega arith) hmax
      ∙ decode_field utf8_decode fuel 2 (to_string current) []
          ((1, utf8_decode (to_string max)) ∷ []) (omega arith) hcurrent in
    rw binary (
      rw size (
        rw fields (
          rw
            (
              keeps (to_string max) (to_string-IsDigit max),
              keeps (to_string current) (to_string-IsDigit current),
            )
            (rw (parse_uint_string-to_string current, parse_uint_string-to_string max) refl))))
