-- ===== src/Wallet/Signature/Decode.antt =====
-- src/adapter/wallet-signer.ts: a signature that is written in Base64 is accepted and read back.
use mathlib.Core.Path.{ap₂}
use kalvora_js.Common.{
  ℕ, ◌+◌, ◌*◌, ◌/◌, ◌%◌, ◌<◌, ◌≡◌, refl, ap, ◌∙◌, true, false, Option, some, [], ◌∷◌, Text, ok,
  ◌==◌, length, arith,
}
use kalvora_js.Bytes.{Bytes, IsBytes}
use kalvora_js.Wallet.Signature.{
  base64_letter, base64_value, value_or_zero, to_base64, from_base64, first_byte, second_byte,
  third_byte, is_base64_text, expected_length, has_length, decode_signature,
}

base64_value-base64_letter : (n : ℕ) → n < 64 → base64_value (base64_letter n) ≡ some n
unfolding base64_value base64_letter
base64_value-base64_letter n h = ground arith

letter_not_padding : (n : ℕ) → n < 64 → (base64_letter n == b'=') ≡ false
unfolding base64_letter
letter_not_padding n h = ground arith

letter_value : (n : ℕ) → n < 64 → value_or_zero (base64_letter n) ≡ n
unfolding value_or_zero
letter_value n h = rw (base64_value-base64_letter n h, value_or_zero) refl

letter_text : (n : ℕ) (s : Text) → n < 64 → is_base64_text (base64_letter n ∷ s) ≡ is_base64_text s
unfolding is_base64_text
letter_text n s h = rw (base64_value-base64_letter n h, is_base64_text) refl

-- What the letters of bytes stand for.
first_byte-made : (a b : ℕ) → b < 256 → first_byte (a / 4) (a % 4 * 16 + b / 16) ≡ a
first_byte-made a b h = omega arith

second_byte-made :
    (a b c : ℕ) → b < 256 → c < 256 → second_byte (a % 4 * 16 + b / 16) (b % 16 * 4 + c / 64) ≡ b
second_byte-made a b c hb hc = omega arith

third_byte-made : (b c : ℕ) → c < 256 → third_byte (b % 16 * 4 + c / 64) (c % 64) ≡ c
third_byte-made b c h = omega arith

from_base64-to_base64 : (bytes : Bytes) → IsBytes bytes → from_base64 (to_base64 bytes) ≡ bytes
unfolding to_base64 from_base64
from_base64-to_base64 [] h = refl
from_base64-to_base64 (a ∷ []) (ha, _) =
    rw (letter_value (a / 4) (omega arith), letter_value (a % 4 * 16) (omega arith))
      (ap (λ x. x ∷ []) (omega arith))
from_base64-to_base64 (a ∷ b ∷ []) (ha, (hb, _)) =
    rw
      (
        letter_not_padding (b % 16 * 4) (omega arith),
        letter_value (a / 4) (omega arith),
        letter_value (a % 4 * 16 + b / 16) (omega arith),
        letter_value (b % 16 * 4) (omega arith),
      )
      (ap₂ (λ x y. x ∷ y ∷ []) (first_byte-made a b hb) (omega arith))
from_base64-to_base64 (a ∷ b ∷ c ∷ bytes) (ha, (hb, (hc, h))) =
    rw
      (
        letter_not_padding (b % 16 * 4 + c / 64) (omega arith),
        letter_not_padding (c % 64) (omega arith),
        letter_value (a / 4) (omega arith),
        letter_value (a % 4 * 16 + b / 16) (omega arith),
        letter_value (b % 16 * 4 + c / 64) (omega arith),
        letter_value (c % 64) (omega arith),
      )
      (ap₂ (λ x y. x ∷ y) (first_byte-made a b hb)
        (ap₂ (λ x y. x ∷ y) (second_byte-made a b c hb hc)
          (ap₂ (λ x y. x ∷ y) (third_byte-made b c hc) (from_base64-to_base64 bytes h))))

is_base64_text-to_base64 : (bytes : Bytes) → IsBytes bytes → is_base64_text (to_base64 bytes) ≡ true
unfolding to_base64
is_base64_text-to_base64 [] h = unfold is_base64_text in refl
is_base64_text-to_base64 (a ∷ []) (ha, _) =
    letter_text (a / 4) _ (omega arith)
    ∙ letter_text (a % 4 * 16) _ (omega arith)
    ∙ (unfold is_base64_text base64_value in refl)
is_base64_text-to_base64 (a ∷ b ∷ []) (ha, (hb, _)) =
    letter_text (a / 4) _ (omega arith)
    ∙ letter_text (a % 4 * 16 + b / 16) _ (omega arith)
    ∙ letter_text (b % 16 * 4) _ (omega arith)
    ∙ (unfold is_base64_text base64_value in refl)
is_base64_text-to_base64 (a ∷ b ∷ c ∷ bytes) (ha, (hb, (hc, h))) =
    letter_text (a / 4) _ (omega arith)
    ∙ letter_text (a % 4 * 16 + b / 16) _ (omega arith)
    ∙ letter_text (b % 16 * 4 + c / 64) _ (omega arith)
    ∙ letter_text (c % 64) _ (omega arith)
    ∙ is_base64_text-to_base64 bytes h

length-to_base64 : (bytes : Bytes) → (k : ℕ) × (length (to_base64 bytes) ≡ k * 4)
unfolding to_base64
length-to_base64 [] = (0, refl)
length-to_base64 (a ∷ []) = (1, refl)
length-to_base64 (a ∷ b ∷ []) = (1, refl)
length-to_base64 (a ∷ b ∷ c ∷ bytes) =
    let (k, is) = length-to_base64 bytes in (k + 1, omega (arith, is))

some_letters : (b : ℕ) (bytes : Bytes) → (length (to_base64 (b ∷ bytes)) == 0) ≡ false
unfolding to_base64
some_letters a [] = refl
some_letters a (b ∷ []) = refl
some_letters a (b ∷ c ∷ bytes) = ground arith

whole_groups : (bytes : Bytes) → (length (to_base64 bytes) % 4 == 0) ≡ true
whole_groups bytes = let (k, is) = length-to_base64 bytes in rw is (ground arith)

-- A signature that a wallet app writes in Base64, encoded for an address or not, is accepted and read
-- back as it is, where it has the length of the key's signatures, or, for a key of no known type, 64
-- or 114 bytes.
pub decode_signature-to_base64 :
    (decode_uri : Text → Option Text) (encoded : Text) (key : Option Text) (b : ℕ) (bytes : Bytes)
    → decode_uri encoded ≡ some (to_base64 (b ∷ bytes))
    → IsBytes (b ∷ bytes)
    → has_length (expected_length key) (b ∷ bytes) ≡ true
    → decode_signature decode_uri encoded key ≡ ok (b ∷ bytes)
unfolding decode_signature
decode_signature-to_base64 decode_uri encoded key b bytes decoded h sized = rw decoded (
    rw (some_letters b bytes, whole_groups (b ∷ bytes), is_base64_text-to_base64 (b ∷ bytes) h)
      (rw (from_base64-to_base64 (b ∷ bytes) h) (rw sized refl)))
