-- ===== src/Bytes/Examples.antt =====
-- src/shared/utils/byte-utils.ts: the theorems at concrete inputs.
use kalvora_js.Common.{ℕ, ◌*◌, ◌^◌, ◌≡◌, [], ◌∷◌, ◌++◌, arith, ok, codes, length}
use kalvora_js.Common.Int.{negsuc}
use kalvora_js.Bytes.{
  Bytes, wrap, encode_u64_le, encode_u64_be, encode_u32_le, decode_u64_le, decode_u64_be,
  decode_u32_le,
}
use kalvora_js.Bytes.Ints.{decode-encode}
use kalvora_js.Bytes.Hex.{hex_to_bytes, bytes_to_hex, hex_to_bytes-bytes_to_hex}

-- A negative number is stored modulo the width.
decode-encode_example :
    (decode_u64_le (encode_u64_le (negsuc 4)) ≡ ok (wrap (2 ^ 64) (negsuc 4)))
    × (decode_u64_be (encode_u64_be (negsuc 4)) ≡ ok (wrap (2 ^ 64) (negsuc 4)))
    × (decode_u32_le (encode_u32_le (negsuc 4)) ≡ ok (wrap (2 ^ 32) (negsuc 4)))
decode-encode_example = decode-encode (negsuc 4)

abbrev pair : ℕ → Bytes
pair b = 1 ∷ b ∷ []

abbrev eight : Bytes
eight = 1 ∷ 2 ∷ 3 ∷ 4 ∷ 5 ∷ 6 ∷ 7 ∷ 255 ∷ []

hex_to_bytes-bytes_to_hex_example :
    (hex_to_bytes (bytes_to_hex (10 ∷ 255 ∷ [])) ≡ 10 ∷ 255 ∷ [])
    × (hex_to_bytes (codes "0x" ++ bytes_to_hex (10 ∷ 255 ∷ [])) ≡ 10 ∷ 255 ∷ [])
    × (length (bytes_to_hex (10 ∷ 255 ∷ [])) ≡ 2 * 2)
hex_to_bytes-bytes_to_hex_example =
    hex_to_bytes-bytes_to_hex (10 ∷ 255 ∷ []) (omega arith, (omega arith, tt))
