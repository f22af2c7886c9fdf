-- ===== src/Wallet/Signature.antt =====
-- src/adapter/wallet-signer.ts: Base64 texts, and what `decodeAndValidateSignature` accepts.
pub mod Decode
use kalvora_js.Common.{
  ℕ, ◌+◌, ◌-◌, ◌*◌, ◌/◌, ◌%◌, Bool, true, false, not, ◌&&◌, ◌||◌, Option, none, some, [], ◌∷◌, ◌++◌,
  Text, codes, Result, ok, err, ◌>>=◌, ◌>>◌, throw_if, if◌then◌else◌, ◌==◌, leb, ltb, length,
}
use kalvora_js.Js.{starts_with}
use kalvora_js.Js.Numerals.{to_string}
use kalvora_js.Bytes.{Bytes}
use kalvora_js.Keys.{without_restriction}
use kalvora_js.Wallet.{WalletError, by_wallet, bad_encoding, bad_base64, bad_length}

-- The letter of a six-bit number, and back.
unfoldable pub base64_letter : ℕ → ℕ
base64_letter n =
    if ltb n 26
    then n + b'A'
    else if ltb n 52
    then n - 26 + b'a'
    else if ltb n 62
    then n - 52 + b'0'
    else if n == 62
    then b'+'
    else b'/'

unfoldable pub base64_value : ℕ → Option ℕ
base64_value c =
    if leb b'A' c && leb c b'Z'
    then some (c - b'A')
    else if leb b'a' c && leb c b'z'
    then some (c - b'a' + 26)
    else if leb b'0' c && leb c b'9'
    then some (c - b'0' + 52)
    else if c == b'+'
    then some 62
    else if c == b'/'
    then some 63
    else none

unfoldable pub value_or_zero : ℕ → ℕ
value_or_zero c = elim (base64_value c) [ none ↦ 0 | some n ↦ n ]

unfoldable pub to_base64 : Bytes → Text
to_base64 [] = []
to_base64 (a ∷ []) = base64_letter (a / 4) ∷ base64_letter (a % 4 * 16) ∷ b'=' ∷ b'=' ∷ []
to_base64 (a ∷ b ∷ []) =
    base64_letter (a / 4)
    ∷ base64_letter (a % 4 * 16 + b / 16)
    ∷ base64_letter (b % 16 * 4)
    ∷ b'='
    ∷ []
to_base64 (a ∷ b ∷ c ∷ bytes) =
    base64_letter (a / 4)
    ∷ base64_letter (a % 4 * 16 + b / 16)
    ∷ base64_letter (b % 16 * 4 + c / 64)
    ∷ base64_letter (c % 64)
    ∷ to_base64 bytes

abbrev pub first_byte : ℕ → ℕ → ℕ
first_byte p q = p * 4 + q / 16

abbrev pub second_byte : ℕ → ℕ → ℕ
second_byte q r = q % 16 * 16 + r / 4

abbrev pub third_byte : ℕ → ℕ → ℕ
third_byte r s = r % 4 * 64 + s

-- Of a text that is Base64: what `fromBase64` is called on.
unfoldable pub from_base64 : Text → Bytes
from_base64 (p ∷ q ∷ r ∷ s ∷ t) =
    let others = from_base64 t in
    if r == b'='
    then first_byte (value_or_zero p) (value_or_zero q) ∷ []
    else if s == b'='
    then first_byte (value_or_zero p) (value_or_zero q)
      ∷ second_byte (value_or_zero q) (value_or_zero r)
      ∷ []
    else first_byte (value_or_zero p) (value_or_zero q)
      ∷ second_byte (value_or_zero q) (value_or_zero r)
      ∷ third_byte (value_or_zero r) (value_or_zero s)
      ∷ others
from_base64 _ = []

abbrev pub is_padding : Text → Bool
is_padding [] = true
is_padding (c ∷ []) = c == b'='
is_padding (c ∷ d ∷ []) = c == b'=' && d == b'='
is_padding _ = false

-- `[A-Za-z0-9+/]*={0,2}`, between `^` and `$`.
unfoldable pub is_base64_text : Text → Bool
is_base64_text [] = true
is_base64_text (c ∷ s) = elim (base64_value c) [
  | some n ↦ is_base64_text s
  | none ↦ is_padding (c ∷ s)
]

unfoldable pub expected_length : Option Text → Option ℕ
expected_length none = none
expected_length (some key) =
    if starts_with (codes "A_") (without_restriction key)
    then some 64
    else if starts_with (codes "B_") (without_restriction key)
    then some 114
    else none

unfoldable pub has_length : Option ℕ → Bytes → Bool
has_length none signature = length signature == 64 || length signature == 114
has_length (some n) signature = length signature == n

-- The texts of the errors that a call-back for a signature is refused with.
abbrev pub message_of : WalletError → Text
message_of (by_wallet message) = message
message_of bad_encoding = codes "Wallet returned an invalid signature encoding"
message_of bad_base64 = codes "Wallet returned an invalid base64 signature"
message_of (bad_length none) =
    codes "Wallet returned an invalid signature length: expected 64 or 114 bytes"
message_of (bad_length (some n)) =
    codes "Wallet returned an invalid signature length: expected " ++ to_string n ++ codes " bytes"
message_of _ = []

-- `decode_uri` is `decodeURIComponent`, `none` where it throws.
module _ (decode_uri : Text → Option Text) where
  abbrev pub or_throw : {A : Type 0} → Option A → WalletError → Result WalletError A
  or_throw none e = err e
  or_throw (some a) e = ok a

  unfoldable pub decode_signature : Text → Option Text → Result WalletError Bytes
  decode_signature encoded key = do
    normalized ← or_throw (decode_uri encoded) bad_encoding
    throw_if
        (length normalized == 0
          || not (length normalized % 4 == 0)
          || not (is_base64_text normalized))
        bad_base64
    throw_if (not (has_length (expected_length key) (from_base64 normalized)))
        (bad_length (expected_length key))
    ok (from_base64 normalized)
