-- ===== src/Validation.antt =====
-- src/shared/utils/validation.ts: the validators of texts. The others are in Validation/HashTypes,
-- Validation/Multiple and Validation/Amount.
pub mod Texts
pub mod Words
pub mod HashTypes
pub mod Multiple
pub mod Amount
mod Examples
use kalvora_js.Common.{
  ℕ, zero, suc, Bool, true, false, not, ◌&&◌, ◌||◌, ◌≡◌, ◌⊎◌, Option, none, some, List, [], ◌∷◌,
  Result, ok, err, ltb, leb, ◌==◌, if◌then◌else◌, length, all, any, Text, codes, text_eq,
}
use kalvora_js.Js.{is_space, trim}
use kalvora_js.Js.Value.{Value, string, truthy}
use kalvora_js.ContractId.{Primitives}
use kalvora_js.MintId.{is_mint_id_text}

-- The messages, as the check that failed; a number is the index or the length that is named.
pub data ValidationError : Type 0 where
  contract_id_required contract_id_not_string invalid_mint_id : ValidationError
  amount_required invalid_amount amount_zero amount_negative below_minimum above_maximum
        unreadable_bound :
      ValidationError
  address_required address_not_string address_format : ValidationError
  address_length : ℕ → ValidationError
  key_required key_not_string key_format : ValidationError
  key_type_required key_type_not_string invalid_key_type : ValidationError
  hash_types_required hash_types_not_array hash_types_empty : ValidationError
  hash_type_not_string invalid_hash_type : ℕ → ValidationError
  mnemonic_required mnemonic_not_string : ValidationError
  mnemonic_length : ℕ → ValidationError
  -- The indexes that failed; their own messages are left out.
  multiple : List ℕ → ValidationError

-- `X` is the type of the details, which are handed back. The context only names the place.
pub record ValidationOptions (X : Type 0) : Type 0 where
  pub throw_on_error : Bool
  pub details : Option X

pub record ValidationResult (X T : Type 0) : Type 0 where
  pub is_valid : Bool
  pub value : Option T
  pub error : Option ValidationError
  pub details : Option X

abbrev pub Outcome : Type 0 → Type 0 → Type 0
Outcome X T = Result ValidationError (ValidationResult X T)

-- Every failed check: throw, or return the error.
abbrev pub fail : {X T : Type 0} → ValidationOptions X → ValidationError → Outcome X T
fail options e =
    if options.throw_on_error
    then err e
    else ok (record { is_valid = false; value = none; error = some e; details = options.details })

abbrev pub accept : {X T : Type 0} → ValidationOptions X → T → Outcome X T
accept options v =
    ok (record { is_valid = true; value = some v; error = none; details = options.details })

abbrev pub as_string : {D : Type 0} → Value D → Option Text
as_string (string s) = some s
as_string _ = none

-- The two checks at the front of every validator of a text.
unfoldable pub require_string :
    {D X T : Type 0}
    → ValidationOptions X
    → ValidationError
    → ValidationError
    → (Text → Outcome X T)
    → Value D
    → Outcome X T
require_string options required not_string check value =
    if not (truthy value)
    then fail options required
    else elim (as_string value) [ none ↦ fail options not_string | some s ↦ check s ]

-- `[1-9A-HJ-NP-Za-km-z]`
unfoldable pub is_base58 : ℕ → Bool
is_base58 c =
    (leb b'1' c && leb c b'9')
    || (leb b'A' c && leb c b'H')
    || (leb b'J' c && leb c b'N')
    || (leb b'P' c && leb c b'Z')
    || (leb b'a' c && leb c b'k')
    || (leb b'm' c && leb c b'z')

-- The expression with `+`, between `^` and `$`.
abbrev pub is_base58_text : Text → Bool
is_base58_text [] = false
is_base58_text (c ∷ s) = all is_base58 (c ∷ s)

abbrev pub bad_length : Text → Bool
bad_length s = ltb (length s) 20 || ltb 50 (length s)

abbrev pub burn_address : Text
burn_address = codes "W5jE3KNH"

abbrev pub key_types : List Text
key_types = codes "ed25519" ∷ codes "ed448" ∷ []

abbrev pub is_one_of : List Text → Text → Bool
is_one_of texts s = any (text_eq s) texts

abbrev pub starts_with_space : Text → Bool
starts_with_space [] = false
starts_with_space (c ∷ s) = is_space c

abbrev pub add_first : ℕ → List Text → List Text
add_first c [] = []
add_first c (word ∷ words) = (c ∷ word) ∷ words

-- `s.split(/\s+/)`
unfoldable pub split_spaces : Text → List Text
split_spaces [] = [] ∷ []
split_spaces (c ∷ s) =
    let rest = split_spaces s in
    if is_space c then (if starts_with_space s then rest else [] ∷ rest) else add_first c rest

abbrev pub valid_lengths : List ℕ
valid_lengths = 12 ∷ 15 ∷ 18 ∷ 21 ∷ 24 ∷ []

module _ {D X : Type 0} (options : ValidationOptions X) where
  unfoldable pub validate_contract_id : Primitives → Value D → Outcome X Text
  validate_contract_id p =
      require_string options contract_id_required contract_id_not_string
        (λ s. if not (is_mint_id_text p s) then fail options invalid_mint_id else accept options s)

  unfoldable pub validate_base58_address : Value D → Outcome X Text
  validate_base58_address = require_string options address_required address_not_string (λ s.
      if not (is_base58_text s)
      then fail options address_format
      else if bad_length s
      then fail options (address_length (length s))
      else accept options s)

  unfoldable pub validate_base58_key : Value D → Outcome X Text
  validate_base58_key =
      require_string options key_required key_not_string
        (λ s. if not (is_base58_text s) then fail options key_format else accept options s)

  -- `toLowerCase` maps by the Unicode tables, which are a parameter.
  unfoldable pub validate_key_type : (Text → Text) → Value D → Outcome X Text
  validate_key_type to_lower_case =
      require_string options key_type_required key_type_not_string (λ s.
        if not (is_one_of key_types (to_lower_case s))
        then fail options invalid_key_type
        else accept options (to_lower_case s))

  unfoldable pub validate_mnemonic : Value D → Outcome X Text
  validate_mnemonic = require_string options mnemonic_required mnemonic_not_string (λ s.
      let count = length (split_spaces (trim s)) in
      if not (any (λ n. n == count) valid_lengths)
      then fail options (mnemonic_length count)
      else accept options (trim s))

-- On a value of unknown type; the source catches errors that nothing here throws.
unfoldable pub is_valid_address : {D : Type 0} → Value D → Bool
is_valid_address value = elim (as_string value) [
  | none ↦ false
  | some s ↦
      if not (truthy value) || not (is_base58_text s)
      then false
      else if bad_length s
      then text_eq s burn_address
      else true
]

unfoldable pub is_valid_contract_id : Primitives → Text → Bool
is_valid_contract_id p contract_id = is_mint_id_text p contract_id
