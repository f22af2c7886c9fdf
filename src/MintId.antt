-- ===== src/MintId.antt =====
-- src/shared/network/constants.ts: the contract identifiers that the network accepts.
pub mod Bridged
pub mod Accepts
mod Examples
use kalvora_js.Common.{
  ℕ, zero, suc, Bool, true, false, not, ◌&&◌, ◌||◌, List, [], ◌∷◌, ltb, leb, ◌==◌, if◌then◌else◌,
  length, all, Text, text_eq,
}
use kalvora_js.Js.{trim}
use kalvora_js.Js.Utf8.{utf8}
use kalvora_js.Js.Value.{Value, string}
use kalvora_js.ContractId.{Primitives, is_canonical_text}

-- `[A-Za-z0-9]`
unfoldable pub is_alnum : ℕ → Bool
is_alnum c = (leb b'A' c && leb c b'Z') || (leb b'a' c && leb c b'z') || (leb b'0' c && leb c b'9')

-- The longest run of such characters at the front, and what is behind it.
unfoldable pub take_alnum : Text → Text
take_alnum [] = []
take_alnum (c ∷ s) = let rest = take_alnum s in if is_alnum c then c ∷ rest else []

unfoldable pub drop_alnum : Text → Text
drop_alnum [] = []
drop_alnum (c ∷ s) = let rest = drop_alnum s in if is_alnum c then rest else c ∷ s

abbrev pub is_run : Text → Bool
is_run [] = false
is_run (c ∷ s) = all is_alnum (c ∷ s)

-- `[A-Za-z0-9]+(?:\+[A-Za-z0-9]+)?$`. A run is never followed by a character of the class, so that
-- the longest run is the only one that the expression can match.
abbrev version_part : Text → Bool
version_part [] = true
version_part (c ∷ s) = c == b'+' && is_run s

unfoldable pub symbol_part : Text → Bool
symbol_part s = is_run (take_alnum s) && version_part (drop_alnum s)

abbrev dash_part : Text → Bool
dash_part [] = false
dash_part (c ∷ s) = c == b'-' && symbol_part s

-- `KALVORA_BRIDGED_MINT_ID_PATTERN.test(value)`
unfoldable pub is_bridged : Text → Bool
is_bridged [] = false
is_bridged (c ∷ s) = c == b'$' && (is_run (take_alnum s) && dash_part (drop_alnum s))

abbrev pub max_bytes : ℕ
max_bytes = 512

module _ (p : Primitives) where
  unfoldable pub is_mint_id_text : Text → Bool
  is_mint_id_text value =
      if length value == 0 || not (text_eq value (trim value))
      then false
      else if ltb max_bytes (length (utf8 value))
      then false
      else is_canonical_text p value || is_bridged value

  unfoldable pub is_kalvora_mint_id : {D : Type 0} → Value D → Bool
  is_kalvora_mint_id (string value) = is_mint_id_text value
  is_kalvora_mint_id _ = false
