-- ===== src/Bytes.antt =====
-- src/shared/utils/byte-utils.ts: fixed-width integers, concatenation, comparison and padding of
-- byte arrays. A `Uint8Array` is a list of numbers; the hexadecimal functions are in Bytes/Hex.
pub mod Hex
pub mod Ints
pub mod Arrays
mod Examples
use kalvora_js.Common.{
  ℕ, zero, suc, ◌+◌, ◌-◌, ◌*◌, ◌/◌, ◌%◌, ◌^◌, ◌<◌, Bool, true, false, not, List, [], ◌∷◌, ◌++◌,
  Result, ok, err, ltb, ◌==◌, if◌then◌else◌, length, take, drop, replicate, All, text_eq,
}
use kalvora_js.Common.Int.{ℤ, pos, negsuc}

abbrev pub Bytes : Type 0
Bytes = List ℕ

abbrev pub IsByte : ℕ → Type 0
IsByte b = b < 256

abbrev pub IsBytes : Bytes → Type 0
IsBytes = All IsByte

-- The error that a decoder throws names the length that it wants.
pub data BytesError : Type 0 where
  requires : ℕ → BytesError

-- An integer modulo `m`, as `DataView` stores it.
unfoldable pub wrap : ℕ → ℤ → ℕ
wrap m (pos n) = n % m
wrap m (negsuc n) = m - 1 - n % m

-- The `width` low bytes of a number, the lowest first and the highest first.
unfoldable pub little_bytes : ℕ → ℕ → Bytes
little_bytes zero n = []
little_bytes (suc width) n = (n % 256) ∷ little_bytes width (n / 256)

unfoldable pub big_bytes : ℕ → ℕ → Bytes
big_bytes zero n = []
big_bytes (suc width) n = (n / 256 ^ width % 256) ∷ big_bytes width n

unfoldable pub little_value : Bytes → ℕ
little_value [] = 0
little_value (b ∷ bs) = b + 256 * little_value bs

unfoldable pub big_value_from : ℕ → Bytes → ℕ
big_value_from acc [] = acc
big_value_from acc (b ∷ bs) = big_value_from (acc * 256 + b) bs

-- `view.setUintN(0, value, littleEndian)` on a fresh buffer of `width` bytes.
unfoldable pub set_uint : ℕ → ℤ → Bool → Bytes
unfolding wrap
set_uint width value true = little_bytes width (wrap (256 ^ width) value)
set_uint width value false = big_bytes width (wrap (256 ^ width) value)

-- `view.getUintN(0, littleEndian)`.
unfoldable pub get_uint : Bytes → Bool → ℕ
get_uint bytes true = little_value bytes
get_uint bytes false = big_value_from 0 bytes

unfoldable pub encode_u64_le : ℤ → Bytes
encode_u64_le value = set_uint 8 value true

unfoldable pub encode_u64_be : ℤ → Bytes
encode_u64_be value = set_uint 8 value false

unfoldable pub encode_u32_le : ℤ → Bytes
encode_u32_le value = set_uint 4 value true

unfoldable pub encode_u32_be : ℤ → Bytes
encode_u32_be value = set_uint 4 value false

unfoldable pub encode_u16_le : ℤ → Bytes
encode_u16_le value = set_uint 2 value true

unfoldable pub encode_u16_be : ℤ → Bytes
encode_u16_be value = set_uint 2 value false

unfoldable pub decode_u64_le : Bytes → Result BytesError ℕ
decode_u64_le bytes = if not (length bytes == 8) then err (requires 8) else ok (get_uint bytes true)

unfoldable pub decode_u64_be : Bytes → Result BytesError ℕ
decode_u64_be bytes =
    if not (length bytes == 8) then err (requires 8) else ok (get_uint bytes false)

unfoldable pub decode_u32_le : Bytes → Result BytesError ℕ
decode_u32_le bytes = if not (length bytes == 4) then err (requires 4) else ok (get_uint bytes true)

-- `target.set(source, offset)`, for a source that fits behind the offset.
unfoldable pub set_at : Bytes → ℕ → Bytes → Bytes
set_at target offset source = take offset target ++ (source ++ drop (offset + length source) target)

-- The loop of `concatBytes` over the arrays, with the running offset.
unfoldable pub concat_loop : Bytes → ℕ → List Bytes → Bytes
concat_loop result offset [] = result
concat_loop result offset (arr ∷ arrays) =
    concat_loop (set_at result offset arr) (offset + length arr) arrays

unfoldable pub total_length : List Bytes → ℕ
total_length [] = 0
total_length (arr ∷ arrays) = length arr + total_length arrays

unfoldable pub concat_bytes : List Bytes → Bytes
concat_bytes arrays = concat_loop (replicate (total_length arrays) 0) 0 arrays

-- The comparison loop of `bytesEqual`, for arrays of one length.
unfoldable pub same_bytes : Bytes → Bytes → Bool
same_bytes [] ys = true
same_bytes (x ∷ xs) [] = false
same_bytes (x ∷ xs) (y ∷ ys) = if not (x == y) then false else same_bytes xs ys

unfoldable pub bytes_equal : Bytes → Bytes → Bool
unfolding same_bytes
bytes_equal a b = if not (length a == length b) then false else same_bytes a b

unfoldable pub fixed_bytes : Bytes → ℕ → Bool → Bytes
fixed_bytes bytes size pad_start =
    if length bytes == size
    then bytes
    else if ltb size (length bytes)
    then (let offset = if pad_start then length bytes - size else 0 in
        set_at (replicate size 0) 0 (take size (drop offset bytes)))
    else (let offset = if pad_start then size - length bytes else 0 in
        set_at (replicate size 0) offset bytes)
