-- ===== src/ContractId/Canonical.antt =====
-- src/protocol/contract-id.ts: the identifiers that `isCanonicalContractId` accepts are exactly the
-- ones that `encodeContractId` makes.
use mathlib.Core.Path.{ap₂}
use mathlib.Core.List.{flatten, append-nil}
use kalvora_js.Common.{
  ℕ, ◌≤◌, ◌≡◌, ◌↔◌, ◌≢◌, refl, sym, ap, ◌∙◌, true, false, ◌&&◌, some, [], ◌∷◌, ◌++◌, arith, ok,
  length, take, drop, All, All-append, Text, codes, text_eq, text_eq_iff, text_eq_refl, text_eq→eq,
  Option-cases, inl, inr, length-append, length-take, length-drop, take-append-drop,
  take-append_length, drop-append_length, zero, suc,
}
use kalvora_js.Js.{is_space, trim, trim_id}
use kalvora_js.Js.Utf8.{utf8}
use kalvora_js.Bytes.{Bytes, IsBytes, big_bytes}
use kalvora_js.ContractId.{
  Primitives, concat, u32, length_prefixed, prefixed_string, contract_id_checksum,
  encode_contract_id, checksum_matches, is_canonical_text, decode_contract_id, same_at,
}
use kalvora_js.ContractId.Codes.{concat-flatten}

-- What the packages document: BLAKE3 has 32 bytes of output, and the Base58 codec round-trips, over
-- an alphabet with no white space. (The empty text is the encoding of no bytes.)
pub record Documented (p : Primitives) : Type 0 where
  pub length-blake3 : (b : Bytes) → length (p.blake3 b) ≡ 32
  pub blake3-IsBytes : (b : Bytes) → IsBytes (p.blake3 b)
  pub decode-encode : (b : Bytes) → IsBytes b → p.bs58_decode (p.bs58_encode b) ≡ some b
  pub decode-nil : p.bs58_decode [] ≡ some []
  pub decode-IsBytes : (t : Text) (b : Bytes) → p.bs58_decode t ≡ some b → IsBytes b
  pub encode-no_space : (b : Bytes) → All (λ c. is_space c ≡ false) (p.bs58_encode b)

All-take : (n : ℕ) (xs : Bytes) → IsBytes xs → IsBytes (take n xs)
All-take zero xs h = tt
All-take (suc n) [] h = tt
All-take (suc n) (x ∷ xs) (hx, h) = (hx, All-take n xs h)

length_prefixed_total :
    (bytes : Bytes) → length bytes ≤ 0xffff_ffff → (a : Bytes) × (length_prefixed bytes ≡ ok a)
unfolding length_prefixed u32
length_prefixed_total bytes h = (concat (big_bytes 4 (length bytes) ∷ bytes ∷ []), ground arith)

domain_total : (a : Bytes) × (prefixed_string (codes "KALVORA_CONTRACT_ID_CHECKSUM_V1") ≡ ok a)
unfolding prefixed_string utf8
domain_total = length_prefixed_total (codes "KALVORA_CONTRACT_ID_CHECKSUM_V1") (omega arith)

-- Comparing the four bytes one by one compares the checksums.
same_four :
    (xs ys : Bytes)
    → length xs ≡ 4
    → length ys ≡ 4
    → (same_at 0 xs ys && same_at 1 xs ys && same_at 2 xs ys && same_at 3 xs ys) ≡ text_eq xs ys
same_four (a ∷ b ∷ c ∷ d ∷ []) (e ∷ f ∷ g ∷ h ∷ []) p q = ground arith
same_four _ _ p q = absurd (omega arith)

take_digest : (digest c : Bytes) → length digest ≡ 32 → take 32 (digest ++ c) ≡ digest
take_digest digest c size = ap (λ t. take t (digest ++ c)) (sym size) ∙ take-append_length digest c

drop_digest : (digest c : Bytes) → length digest ≡ 32 → drop 32 (digest ++ c) ≡ c
drop_digest digest c size = ap (λ t. drop t (digest ++ c)) (sym size) ∙ drop-append_length digest c

module _ (p : Primitives) (d : Documented p) where
  open p use {blake3, bs58_encode, bs58_decode}

  checksum_total :
      (digest : Bytes)
      → length digest ≡ 32
      → (c : Bytes) × (contract_id_checksum p digest ≡ ok c) × (length c ≡ 4) × IsBytes c
  unfolding contract_id_checksum
  checksum_total digest h =
      let (domain, hd) = domain_total in
      let (body, hb) = length_prefixed_total digest (omega arith) in
      let whole = blake3 (concat (domain ∷ body ∷ [])) in
      (
        take 4 whole,
        rw (h, hd, hb),
        omega (arith, length-take 4 whole, d.length-blake3 (concat (domain ∷ body ∷ []))),
        All-take 4 whole (d.blake3-IsBytes _),
      )

  encode_shape :
      (digest c : Bytes)
      → contract_id_checksum p digest ≡ ok c
      → encode_contract_id p digest ≡ ok (bs58_encode (digest ++ c))
  unfolding encode_contract_id flatten
  encode_shape digest c h = rw h (
      ap (λ t. ok (bs58_encode t))
        (concat-flatten (digest ∷ c ∷ []) ∙ ap (λ t. digest ++ t) (append-nil c)))

  checksum_matches_lem :
      (decoded c : Bytes)
      → length decoded ≡ 36
      → contract_id_checksum p (take 32 decoded) ≡ ok c
      → length c ≡ 4
      → checksum_matches p decoded ≡ text_eq (drop 32 decoded) c
  unfolding checksum_matches
  checksum_matches_lem decoded c size h hc =
      rw (h, checksum_matches)
        (same_four (drop 32 decoded) c (omega (arith, length-drop 32 decoded)) hc)

  decoded_of_canonical :
      (value : Text)
      → is_canonical_text p value ≡ true
      → (decoded : Bytes) × (bs58_decode value ≡ some decoded)
        × (length decoded ≡ 36)
        × (bs58_encode decoded ≡ value)
        × (checksum_matches p decoded ≡ true)
  unfolding is_canonical_text
  decoded_of_canonical value h = elim (Option-cases (bs58_decode value)) [
    | inl failed ↦ absurd (ground arith)
    | inr (decoded, e) ↦ (
      decoded,
      e,
      ground arith,
      ground (arith, text_eq_iff (bs58_encode decoded) value),
      ground arith,
    )
  ]

  canonical_of_decoded :
      (value : Text) (decoded : Bytes)
      → value ≢ []
      → trim value ≡ value
      → bs58_decode value ≡ some decoded
      → length decoded ≡ 36
      → bs58_encode decoded ≡ value
      → checksum_matches p decoded ≡ true
      → is_canonical_text p value ≡ true
  unfolding is_canonical_text
  canonical_of_decoded value decoded nonempty trimmed e size back matches = ground (
    arith,
    text_eq_iff value [],
    text_eq_iff value (trim value),
    text_eq_iff (bs58_encode decoded) value,
  )

  -- What the encoder makes of a digest decodes to the digest and its checksum.
  encoded :
      (digest c : Bytes)
      → length digest ≡ 32
      → IsBytes digest
      → contract_id_checksum p digest ≡ ok c
      → length c ≡ 4
      → IsBytes c
      → is_canonical_text p (bs58_encode (digest ++ c)) ≡ true
  encoded digest c size hd hc size' hb =
      canonical_of_decoded (bs58_encode whole) whole nonempty (trim_id _ (d.encode-no_space whole))
        decodes total refl matches
    where
      whole : Bytes
      whole = digest ++ c

      total : length (digest ++ c) ≡ 36
      total = omega (arith, length-append digest c)

      decodes : bs58_decode (bs58_encode (digest ++ c)) ≡ some (digest ++ c)
      decodes = d.decode-encode (digest ++ c) (All-append _ digest c hd hb)

      nonempty : bs58_encode (digest ++ c) ≢ []
      nonempty e =
          let none_left : some (digest ++ c) ≡ some [] =
            sym decodes ∙ ap bs58_decode e ∙ d.decode-nil in
          let empty : digest ++ c ≡ [] = cc none_left in
          absurd (omega (arith, total, ap length empty))

      matches : checksum_matches p (digest ++ c) ≡ true
      matches =
          checksum_matches_lem (digest ++ c) c total (rw (take_digest digest c size) hc) size'
          ∙ ap (λ t. text_eq t c) (drop_digest digest c size)
          ∙ text_eq_refl c

  -- A text is accepted exactly if it is the encoding of some digest of 32 bytes: every identifier
  -- that is made is accepted, and nothing else is.
  pub is_canonical_iff :
      (value : Text)
      → (is_canonical_text p value ≡ true) ↔ (
          (digest : Bytes) × (length digest ≡ 32)
          × IsBytes digest
          × (encode_contract_id p digest ≡ ok value))
  is_canonical_iff value = (to, from)
    where
      to :
          is_canonical_text p value ≡ true
          → (digest : Bytes) × (length digest ≡ 32)
            × IsBytes digest
            × (encode_contract_id p digest ≡ ok value)
      to h =
          let (decoded, e, size, back, matches) = decoded_of_canonical value h in
          let digest = take 32 decoded in
          let size32 : length digest ≡ 32 = omega (arith, length-take 32 decoded) in
          let (c, hc, size4, hb) = checksum_total digest size32 in
          let tail : drop 32 decoded ≡ c =
            text_eq→eq _ _ (sym (checksum_matches_lem decoded c size hc size4) ∙ matches) in
          (
            digest,
            size32,
            All-take 32 decoded (d.decode-IsBytes value decoded e),
            encode_shape digest c hc
                ∙ ap (λ t. ok (bs58_encode (take 32 decoded ++ t))) (sym tail)
                ∙ ap (λ t. ok (bs58_encode t)) (take-append-drop 32 decoded)
                ∙ ap ok back,
          )

      from :
          (digest : Bytes) × (length digest ≡ 32)
            × IsBytes digest
            × (encode_contract_id p digest ≡ ok value)
          → is_canonical_text p value ≡ true
      from (digest, size, hd, e) =
          let (c, hc, size4, hb) = checksum_total digest size in
          let text : bs58_encode (digest ++ c) ≡ value = cc (encode_shape digest c hc) in
          rw (← text) (encoded digest c size hd hc size4 hb)

  -- Decoding an identifier gives back the digest that it was made of, with the digest's checksum.
  pub decode-encode_contract_id :
      (digest : Bytes)
      → length digest ≡ 32
      → IsBytes digest
      → (value : Text) × (checksum : Bytes) × (encode_contract_id p digest ≡ ok value)
        × (contract_id_checksum p digest ≡ ok checksum)
        × (decode_contract_id p value ≡ some (digest, checksum))
  unfolding decode_contract_id
  decode-encode_contract_id digest size hd =
      let (c, hc, size4, hb) = checksum_total digest size in
      let decodes = d.decode-encode (digest ++ c) (All-append _ digest c hd hb) in
      (
        bs58_encode (digest ++ c),
        c,
        encode_shape digest c hc,
        hc,
        rw (encoded digest c size hd hc size4 hb, decodes)
            (ap some (ap₂ (λ x y. (x, y)) (take_digest digest c size) (drop_digest digest c size))),
      )
