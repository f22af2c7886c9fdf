-- ===== src/Decoders.antt =====
-- src/query/decoders.ts: numbers and supply records as the network answers them.
pub mod Varint
pub mod Supply
pub mod Block
pub mod Counts
mod Examples
use kalvora_js.Common.{
  ℕ, zero, suc, ◌+◌, ◌-◌, ◌*◌, ◌/◌, ◌%◌, ◌^◌, Bool, true, false, not, ◌&&◌, ◌||◌, Option, none,
  some, List, [], ◌∷◌, ◌++◌, Text, codes, Result, ok, err, ◌>>=◌, ◌>>◌, throw_if, if◌then◌else◌,
  ◌==◌, ltb, leb, length, take, drop, any,
}
use kalvora_js.Common.Int.{ℤ, pos, negsuc}
use kalvora_js.Js.{trim}
use kalvora_js.Js.Numerals.{numeral, to_string}
use kalvora_js.Bytes.{Bytes}

pub data DecodeError : Type 0 where
  not_unsigned not_binary truncated_varint varint_too_long wire_type truncated_record : DecodeError
  bad_denominator no_status : DecodeError

-- `parseUintString`
unfoldable pub parse_trimmed_uint : Text → Result DecodeError ℕ
parse_trimmed_uint [] = ok 0
parse_trimmed_uint (c ∷ s) = elim (numeral 10 (c ∷ s)) [ none ↦ err not_unsigned | some n ↦ ok n ]

unfoldable pub parse_uint_string : Text → Result DecodeError ℕ
parse_uint_string value = parse_trimmed_uint (trim value)

-- The digits of the fraction, at most `count`.
unfoldable pub fraction_digits : ℕ → ℕ → ℕ → Text
fraction_digits zero remainder denominator = []
fraction_digits (suc count) remainder denominator =
    let more = fraction_digits count (remainder * 10 % denominator) denominator in
    if remainder == 0 then [] else to_string (remainder * 10 / denominator) ++ more

-- `fraction.replace(/0+$/u, '')`
unfoldable pub strip_last_zeros : Text → Text
strip_last_zeros [] = []
strip_last_zeros (c ∷ s) = elim (strip_last_zeros s) [
  | [] ↦ if c == b'0' then [] else c ∷ []
  | d ∷ t ↦ c ∷ d ∷ t
]

abbrev pub magnitude : ℤ → ℕ
magnitude (pos n) = n
magnitude (negsuc n) = suc n

abbrev pub is_negative : ℤ → Bool
is_negative (pos n) = false
is_negative (negsuc n) = true

abbrev pub with_fraction : Text → Text → Text
with_fraction whole [] = whole
with_fraction whole (c ∷ s) = whole ++ b'.' ∷ c ∷ s

abbrev pub is_zero_text : ℕ → Text → Bool
is_zero_text whole [] = whole == 0
is_zero_text whole (c ∷ s) = false

-- `formatQuotient`, for a number of digits that is a natural number.
unfoldable pub format_quotient : ℤ → ℤ → ℕ → Result DecodeError Text
format_quotient numerator (negsuc d) digits = err bad_denominator
format_quotient numerator (pos zero) digits = err bad_denominator
format_quotient numerator (pos (suc d)) digits =
    let n = magnitude numerator in
    let fraction = strip_last_zeros (fraction_digits digits (n % suc d) (suc d)) in
    let text = with_fraction (to_string (n / suc d)) fraction in
    ok (
      if is_negative numerator && not (is_zero_text (n / suc d) fraction)
      then b'-' ∷ text
      else text)

abbrev pub usd_scale : ℤ
usd_scale = pos 1_000_000_000_000_000_000

unfoldable pub format_scaled : ℤ → ℕ → Result DecodeError Text
format_scaled scaled digits = format_quotient scaled usd_scale digits

unfoldable pub parts_to_whole : ℤ → ℤ → ℕ → Result DecodeError Text
parts_to_whole parts denomination digits = format_quotient parts denomination digits

-- `readVarint`, on the bytes from the offset on: the value and the bytes that follow.
unfoldable pub read_from : ℕ → ℕ → Bytes → Result DecodeError (ℕ × Bytes)
read_from shift value [] = err truncated_varint
read_from shift value (b ∷ bytes) =
    let sum = value + b % 128 * 2 ^ shift in
    let more = read_from (shift + 7) sum bytes in
    if ltb b 128 then ok (sum, bytes) else if ltb 49 (shift + 7) then err varint_too_long else more

unfoldable pub read_varint : Bytes → Result DecodeError (ℕ × Bytes)
read_varint bytes = read_from 0 0 bytes

pub record ContractSupply : Type 0 where
  pub max_supply : ℕ
  pub current_supply : ℕ
  pub circulation : ℕ

-- `fields.get(n) ?? ''`, the newest entry first.
unfoldable pub field_of : ℕ → List (ℕ × Text) → Text
field_of n [] = []
field_of n ((k, text) ∷ fields) = let older = field_of n fields in if k == n then text else older

-- `utf8_decode` is the TextDecoder.
module _ (utf8_decode : Bytes → Text) where
  -- The loop. Each turn takes two bytes at least, so that the length of the bytes is enough fuel.
  unfoldable pub decode_fields : ℕ → Bytes → List (ℕ × Text) → Result DecodeError (List (ℕ × Text))
  decode_fields fuel [] fields = ok fields
  decode_fields zero (b ∷ bytes) fields = err truncated_record
  decode_fields (suc fuel) (b ∷ bytes) fields = do
    tag ← read_varint (b ∷ bytes)
    throw_if (not (tag.0 % 8 == 2)) wire_type
    size ← read_varint tag.1
    throw_if (ltb (length size.1) size.0) truncated_record
    decode_fields fuel (drop size.0 size.1) ((tag.0 / 8, utf8_decode (take size.0 size.1)) ∷ fields)

  abbrev pub supply_of : List (ℕ × Text) → Result DecodeError ContractSupply
  supply_of fields = do
    current ← parse_uint_string (field_of 2 fields)
    max ← parse_uint_string (field_of 1 fields)
    ok (record { max_supply = max; current_supply = current; circulation = current })

  unfoldable pub decode_contract_supply : Text → Result DecodeError ContractSupply
  decode_contract_supply value = do
    throw_if (any (λ c. ltb 0xff c) value) not_binary
    fields ← decode_fields (length value) value []
    supply_of fields
