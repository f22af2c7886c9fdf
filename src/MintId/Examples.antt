-- ===== src/MintId/Examples.antt =====
-- src/shared/network/constants.ts: the theorems at concrete inputs.
use kalvora_js.Common.{◌≤◌, ◌≡◌, ◌↔◌, ◌⊎◌, true, length, Text, codes}
use kalvora_js.Js.{trim}
use kalvora_js.Js.Utf8.{utf8}
use kalvora_js.ContractId.Toy.{toy, toy-Documented}
use kalvora_js.MintId.{is_mint_id_text}
use kalvora_js.MintId.Bridged.{IsBridged}
use kalvora_js.MintId.Accepts.{IsEncoded, is_mint_id_text_iff}

abbrev bridged : Text
bridged = codes "$sol-USDC+0000"

is_mint_id_text_iff_example : (is_mint_id_text toy bridged ≡ true) ↔ (
    (trim bridged ≡ bridged)
    × (length (utf8 bridged) ≤ 512)
    × (IsEncoded toy bridged ⊎ IsBridged bridged))
is_mint_id_text_iff_example = is_mint_id_text_iff toy toy-Documented bridged
