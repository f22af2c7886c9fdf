-- ===== src/Bytes/Hex.antt =====
-- src/shared/utils/byte-utils.ts: `hexToBytes` and `bytesToHex`, and that they undo one another.
use kalvora_js.Common.{
  ℕ, ◌*◌, ◌/◌, ◌%◌, ◌<◌, ◌≡◌, refl, ap, true, false, ◌&&◌, Option, none, some, [], ◌∷◌, ◌++◌, arith,
  ◌==◌, if◌then◌else◌, length, drop, Text, codes, all_below, all_below_sound, text_eq, text_eq→eq,
}
use kalvora_js.Common.Int.{ℤ}
use Prim.Native.Char.{code}
use kalvora_js.Js.{starts_with, is_space}
use kalvora_js.Js.Numerals.{parse_int_16, to_string_16, pad_start_2, hex_digit}
use kalvora_js.Bytes.{Bytes, IsBytes, wrap}

-- What an element of a `Uint8Array` becomes when a number is stored; NaN becomes 0.
unfoldable pub stored_byte : Option ℤ → ℕ
unfolding wrap
stored_byte none = 0
stored_byte (some v) = wrap 256 v

-- The loop of `hexToBytes`: one byte for each whole pair of characters.
unfoldable pub hex_pairs : Text → Bytes
unfolding stored_byte parse_int_16
hex_pairs [] = []
hex_pairs (a ∷ []) = []
hex_pairs (a ∷ b ∷ rest) = stored_byte (parse_int_16 (a ∷ b ∷ [])) ∷ hex_pairs rest

unfoldable pub hex_to_bytes : Text → Bytes
unfolding hex_pairs starts_with
hex_to_bytes hex = hex_pairs (if starts_with (codes "0x") hex then drop 2 hex else hex)

unfoldable pub byte_to_hex : ℕ → Text
unfolding to_string_16 pad_start_2
byte_to_hex b = pad_start_2 (to_string_16 b)

unfoldable pub bytes_to_hex : Bytes → Text
bytes_to_hex [] = []
bytes_to_hex (b ∷ bytes) = byte_to_hex b ++ bytes_to_hex bytes

abbrev two_digits : ℕ → Text
two_digits b = hex_digit (b / 16) ∷ hex_digit (b % 16) ∷ []

-- The facts about one byte, over all 256 values.
byte_table :
    all_below 256 (λ b.
      text_eq (byte_to_hex b) (two_digits b) && stored_byte (parse_int_16 (two_digits b)) == b)
    ≡ true
unfolding all_below byte_to_hex hex_digit stored_byte parse_int_16 starts_with is_space
byte_table = refl

byte_laws :
    (b : ℕ)
    → b < 256
    → (byte_to_hex b ≡ two_digits b) × (stored_byte (parse_int_16 (two_digits b)) ≡ b)
byte_laws b h = (text_eq→eq _ _ (ground (arith, row)), ground (arith, row))
  where
    row :
        (text_eq (byte_to_hex b) (two_digits b) && stored_byte (parse_int_16 (two_digits b)) == b)
        ≡ true
    row = all_below_sound 256 _ byte_table b h

hex_pairs-bytes_to_hex : (bs : Bytes) → IsBytes bs → hex_pairs (bytes_to_hex bs) ≡ bs
unfolding hex_pairs bytes_to_hex
hex_pairs-bytes_to_hex [] h = refl
hex_pairs-bytes_to_hex (b ∷ bs) (hb, h) =
    rw ((byte_laws b hb).0, hex_pairs, (byte_laws b hb).1)
      (ap (λ t. b ∷ t) (hex_pairs-bytes_to_hex bs h))

length-bytes_to_hex : (bs : Bytes) → IsBytes bs → length (bytes_to_hex bs) ≡ 2 * length bs
unfolding bytes_to_hex
length-bytes_to_hex [] h = refl
length-bytes_to_hex (b ∷ bs) (hb, h) =
    rw (byte_laws b hb).0 (omega (arith, length-bytes_to_hex bs h))

digit-ne-x : (d : ℕ) → d < 16 → (code "x" == hex_digit d) ≡ false
unfolding hex_digit
digit-ne-x d h = ground arith

bytes_to_hex-no_prefix :
    (bs : Bytes) → IsBytes bs → starts_with (codes "0x") (bytes_to_hex bs) ≡ false
unfolding bytes_to_hex starts_with
bytes_to_hex-no_prefix [] h = refl
bytes_to_hex-no_prefix (b ∷ bs) (hb, h) =
    rw (byte_laws b hb).0 (ground (arith, digit-ne-x (b % 16) (omega arith)))

-- The hexadecimal form of an array of bytes has two digits a byte and reads back as the array,
-- with the prefix `0x` or without it.
pub hex_to_bytes-bytes_to_hex :
    (bs : Bytes)
    → IsBytes bs
    → (hex_to_bytes (bytes_to_hex bs) ≡ bs)
      × (hex_to_bytes (codes "0x" ++ bytes_to_hex bs) ≡ bs)
      × (length (bytes_to_hex bs) ≡ 2 * length bs)
unfolding hex_to_bytes
hex_to_bytes-bytes_to_hex bs h = (
  rw (bytes_to_hex-no_prefix bs h) (hex_pairs-bytes_to_hex bs h),
  hex_pairs-bytes_to_hex bs h,
  length-bytes_to_hex bs h,
)
