-- ===== src/Hd.antt =====
-- src/wallet-creation/crypto-core.ts, src/wallet-creation/hd-utils.ts and the path check of
-- src/wallet-creation/constants.ts: keys that are derived from a seed along a path.
pub mod Node
pub mod Factory
pub mod Path
pub mod Derive
pub mod Batch
pub mod Hashes
mod Examples
use kalvora_js.Common.{
  ℕ, zero, suc, ◌+◌, ◌-◌, ◌*◌, ◌/◌, ◌%◌, Bool, true, false, not, ◌&&◌, ◌||◌, Option, none, some,
  List, [], ◌∷◌, ◌++◌, map, Text, codes, text_eq, Result, ok, err, ◌>>=◌, ◌>>◌, throw_if,
  if◌then◌else◌, ◌==◌, length, take, drop, all,
}
use kalvora_js.Common.Int.{ℤ, pos, negsuc, ◌+ℤ◌, ltb_ℤ}
use kalvora_js.Js.{starts_with, trim_start}
use kalvora_js.Js.Numerals.{parse_int_10, parse_int_16, to_string}
use kalvora_js.Js.Utf8.{utf8}
use kalvora_js.Bytes.{Bytes, encode_u32_be, encode_u32_le}
use kalvora_js.Bytes.Hex.{bytes_to_hex}
use kalvora_js.Keys.{KeyType, ed25519, ed448, sha3_256, Crypto, is_empty}

-- The packages that are called.
pub record Curves : Type 0 where
  -- HMAC-SHA512 of a key and data.
  pub hmac : Bytes → Bytes → Bytes
  pub ed25519_public : Bytes → Bytes
  pub ed448_public : Bytes → Bytes
  pub sha256 : Bytes → Bytes
  pub is_mnemonic : Text → Bool
  pub mnemonic_to_seed : Text → Text → Bytes

pub data HdError : Type 0 where
  path_start not_hardened key_length : HdError
  no_mnemonic bad_mnemonic bad_account bad_change bad_address bad_path : HdError
  no_seed no_path bad_count bad_start : HdError

-- `parts[i].endsWith("'")`
unfoldable pub ends_with_quote : Text → Bool
ends_with_quote [] = false
ends_with_quote (c ∷ []) = c == 39
ends_with_quote (c ∷ d ∷ s) = ends_with_quote (d ∷ s)

-- `part.slice(0, -1)`
unfoldable pub without_last : Text → Text
without_last [] = []
without_last (c ∷ []) = []
without_last (c ∷ d ∷ s) = c ∷ without_last (d ∷ s)

abbrev pub add_to_first : ℕ → List Text → List Text
add_to_first c [] = (c ∷ []) ∷ []
add_to_first c (part ∷ parts) = (c ∷ part) ∷ parts

-- `path.split('/')`
unfoldable pub split_slashes : Text → List Text
split_slashes [] = [] ∷ []
split_slashes (c ∷ s) =
    let rest = split_slashes s in if c == b'/' then [] ∷ rest else add_to_first c rest

abbrev pub after_sign : Text → Text
after_sign t = if starts_with (codes "-") t || starts_with (codes "+") t then drop 1 t else t

-- `parseInt(text)`, which takes `0x` for a hexadecimal number; `none` is NaN.
unfoldable pub parse_int : Text → Option ℤ
parse_int text =
    let body = after_sign (trim_start text) in
    if starts_with (codes "0x") body || starts_with (codes "0X") body
    then parse_int_16 text
    else parse_int_10 text

abbrev pub hardened_offset : ℕ
hardened_offset = 2_147_483_648

abbrev pub harden : Option ℤ → Option ℤ
harden none = none
harden (some i) = some (i +ℤ pos hardened_offset)

unfoldable pub segment_index : Text → Option ℤ
segment_index part =
    if ends_with_quote part then harden (parse_int (without_last part)) else parse_int part

unfoldable pub parse_derivation_path : Text → Result HdError (List (Option ℤ))
parse_derivation_path path = do
  throw_if (not (starts_with (codes "m/") path)) path_start
  ok (map segment_index (drop 1 (split_slashes path)))

abbrev pub part_at : ℕ → List Text → Text
part_at n [] = []
part_at zero (part ∷ parts) = part
part_at (suc n) (part ∷ parts) = part_at n parts

-- `parseInt(part.slice(0, -1) || '0') !== n`
abbrev pub is_number : ℕ → Text → Bool
is_number n part =
    let digits = without_last part in
    elim (parse_int (if is_empty digits then codes "0" else digits)) [
      | some (pos k) ↦ k == n
      | _ ↦ false
    ]

abbrev pub kalvora_type : ℕ
kalvora_type = 5258

unfoldable pub validate_slip0010_path : Text → Bool
validate_slip0010_path path =
    let parts = split_slashes path in
    starts_with (codes "m/") path
    && length parts == 6
    && all ends_with_quote (drop 1 parts)
    && is_number 44 (part_at 1 parts)
    && is_number kalvora_type (part_at 2 parts)

-- `setUint32` takes NaN for 0 and a number modulo the width.
abbrev pub or_zero : Option ℤ → ℤ
or_zero none = pos 0
or_zero (some i) = i

-- The text of a whole number.
abbrev pub number_text : ℤ → Text
number_text (pos n) = to_string n
number_text (negsuc n) = b'-' ∷ to_string (suc n)

abbrev pub segment : ℤ → Text
segment i = b'/' ∷ number_text i ++ codes "'"

abbrev pub master_path : Text
master_path = b'm' ∷ segment (pos 44) ++ segment (pos kalvora_type)

-- `m/44'/5258'/account'/change'/address'`
abbrev pub path_text : ℤ → ℤ → ℤ → Text
path_text account change address =
    b'm' ∷ segment (pos 44)
    ++ (segment (pos kalvora_type) ++ (segment account ++ (segment change ++ segment address)))

pub record HdOptions : Type 0 where
  pub account_index : Option ℤ
  pub change_index : Option ℤ
  pub address_index : Option ℤ

abbrev pub is_zero_or_one : ℤ → Bool
is_zero_or_one (pos n) = n == 0 || n == 1
is_zero_or_one (negsuc n) = false

unfoldable pub build_derivation_path : HdOptions → Result HdError Text
build_derivation_path options = do
  let account = or_zero options.account_index
  let change = or_zero options.change_index
  let address = or_zero options.address_index
  throw_if (ltb_ℤ account (pos 0)) bad_account
  throw_if (not (is_zero_or_one change)) bad_change
  throw_if (ltb_ℤ address (pos 0)) bad_address
  throw_if (not (validate_slip0010_path (path_text account change address))) bad_path
  ok (path_text account change address)
