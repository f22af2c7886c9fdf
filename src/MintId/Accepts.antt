-- ===== src/MintId/Accepts.antt =====
-- src/shared/network/constants.ts: what `isKalvoraMintId` accepts.
use kalvora_js.Common.{
  ◌≤◌, ◌≡◌, ◌≢◌, ◌↔◌, ◌⊎◌, inl, inr, refl, sym, Bool, true, false, ◌||◌, [], ◌∷◌, arith, ok, ◌==◌,
  length, Text, text_eq, text_eq_iff,
}
use kalvora_js.Js.{trim}
use kalvora_js.Js.Utf8.{utf8}
use kalvora_js.Bytes.{Bytes, IsBytes}
use kalvora_js.ContractId.{Primitives, is_canonical_text, encode_contract_id}
use kalvora_js.ContractId.Canonical.{Documented, is_canonical_iff}
use kalvora_js.MintId.{is_mint_id_text, is_bridged}
use kalvora_js.MintId.Bridged.{IsBridged, is_bridged_iff}

-- The encoding of a digest of 32 bytes.
abbrev pub IsEncoded : Primitives → Text → Type 0
IsEncoded p value =
    (digest : Bytes) × (length digest ≡ 32)
    × IsBytes digest
    × (encode_contract_id p digest ≡ ok value)

nonempty_length : (value : Text) → value ≢ [] → (length value == 0) ≡ false
nonempty_length [] h = absurd (h refl)
nonempty_length (c ∷ s) h = ground arith

either : (a b : Bool) → (a || b) ≡ true → (a ≡ true) ⊎ (b ≡ true)
either true b h = inl refl
either false b h = inr h

or_either : (a b : Bool) → (a ≡ true) ⊎ (b ≡ true) → (a || b) ≡ true
or_either true b h = refl
or_either false b (inl h) = cc h
or_either false b (inr h) = h

mint_id_to :
    (p : Primitives) (value : Text)
    → is_mint_id_text p value ≡ true
    → (trim value ≡ value)
      × (length (utf8 value) ≤ 512)
      × ((is_canonical_text p value || is_bridged value) ≡ true)
unfolding is_mint_id_text
mint_id_to p value h =
    (sym ((text_eq_iff value (trim value)).0 (ground arith)), ground arith, ground arith)

mint_id_from :
    (p : Primitives) (value : Text)
    → value ≢ []
    → trim value ≡ value
    → length (utf8 value) ≤ 512
    → (is_canonical_text p value || is_bridged value) ≡ true
    → is_mint_id_text p value ≡ true
unfolding is_mint_id_text
mint_id_from p value nonempty trimmed short form =
    let same : text_eq value (trim value) ≡ true =
      (text_eq_iff value (trim value)).1 (sym trimmed) in
    ground (arith, nonempty_length value nonempty)

canonical-nonempty :
    (p : Primitives) (value : Text)
    → (is_canonical_text p value || is_bridged value) ≡ true
    → value ≢ []
unfolding is_canonical_text is_bridged
canonical-nonempty p [] h e = cc h
canonical-nonempty p (c ∷ s) h e = cc e

-- An identifier is accepted exactly if it has no white space around it, takes 512 bytes at most, and
-- is the encoding of a digest or has the bridged form.
pub is_mint_id_text_iff :
    (p : Primitives) (d : Documented p) (value : Text)
    → (is_mint_id_text p value ≡ true)
      ↔ ((trim value ≡ value) × (length (utf8 value) ≤ 512) × (IsEncoded p value ⊎ IsBridged value))
is_mint_id_text_iff p d value = (to, from)
  where
    to :
        is_mint_id_text p value ≡ true
        → (trim value ≡ value) × (length (utf8 value) ≤ 512) × (IsEncoded p value ⊎ IsBridged value)
    to h =
        let (trimmed, short, form) = mint_id_to p value h in
        (
          trimmed,
          short,
          elim (either (is_canonical_text p value) (is_bridged value) form) [
            | inl canonical ↦ inl ((is_canonical_iff p d value).0 canonical)
            | inr bridged ↦ inr ((is_bridged_iff value).0 bridged)
          ],
        )

    from :
        (trim value ≡ value) × (length (utf8 value) ≤ 512) × (IsEncoded p value ⊎ IsBridged value)
        → is_mint_id_text p value ≡ true
    from (trimmed, short, form) =
        let test : (is_canonical_text p value || is_bridged value) ≡ true =
          or_either (is_canonical_text p value) (is_bridged value) (elim form [
            | inl encoded ↦ inl ((is_canonical_iff p d value).1 encoded)
            | inr bridged ↦ inr ((is_bridged_iff value).1 bridged)
          ]) in
        mint_id_from p value (canonical-nonempty p value test) trimmed short test
