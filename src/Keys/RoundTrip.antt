-- ===== src/Keys/RoundTrip.antt =====
-- src/shared/crypto/address-utils.ts: `getPublicKeyIdentifierFromBytes` after `getPublicKeyBytes`.
use mathlib.Core.List.{append_assoc, append-nil}
use mathlib.Core.Path.{subst}
use kalvora_js.Common.{
  ℕ, suc, ◌+◌, ◌<◌, ◌≡◌, ◌≢◌, refl, sym, ap, ◌∙◌, Bool, true, false, ◌&&◌, Option, none, some, List,
  [], ◌∷◌, ◌++◌, Text, ok, err, ◌>>=◌, ◌==◌, ==_iff, length, drop, if◌then◌else◌, All, Bool-cases,
  inl, inr, take-append_length, drop-append_length, length-append, arith,
}
use kalvora_js.Js.{starts_with}
use kalvora_js.Js.Utf8.{utf8_ascii}
use kalvora_js.Bytes.{Bytes}
use kalvora_js.Keys.{
  KeyType, ed25519, ed448, HashType, sha3_256, sha3_512, blake3, Crypto, key_letter, no_raw,
  hash_letter, is_special, is_prefix_byte, last_underscore, get_public_key_bytes, get_identifier,
  cut_identifier,
}
use kalvora_js.Keys.Format.{tagged, identifier, NoUnderscore}
use kalvora_js.Keys.Address.{tags, prefix, split_last-identifier}

-- No underscore stands among the leading bytes that could be bytes of a prefix.
abbrev pub clean : Bytes → Bool
clean [] = true
clean (b ∷ bytes) = if b == b'_' then false else if is_prefix_byte b then clean bytes else true

last_underscore-clean :
    (i : ℕ) (seen : Option ℕ) (raw : Bytes) → clean raw ≡ true → last_underscore i seen raw ≡ seen
unfolding last_underscore
last_underscore-clean i seen [] h = refl
last_underscore-clean i seen (b ∷ raw) h = elim (Bool-cases (b == b'_')) [
  | inl p ↦ cc (rw p at h)
  | inr p ↦ elim (Bool-cases (is_prefix_byte b)) [
    | inl q ↦ rw (p, q) (last_underscore-clean (i + 1) seen raw (rw (p, q) at h))
    | inr q ↦ rw (p, q) refl
  ]
]

is_prefix_byte-underscore : (b : ℕ) → (b == b'_') ≡ true → is_prefix_byte b ≡ true
unfolding is_prefix_byte
is_prefix_byte-underscore b h = ground arith

-- Where the last underscore of the leading bytes is.
abbrev Cut : ℕ → Option ℕ → Bytes → Type 0
Cut i seen raw =
    (u v : Bytes) × (raw ≡ u ++ b'_' ∷ v) × (last_underscore i seen raw ≡ some (i + length u))

last_underscore-Cut : (i : ℕ) (seen : Option ℕ) (raw : Bytes) → clean raw ≡ false → Cut i seen raw
unfolding last_underscore
last_underscore-Cut i seen [] h = cc h
last_underscore-Cut i seen (b ∷ raw) h = elim (Bool-cases (b == b'_')) [
  | inl p ↦ elim (Bool-cases (clean raw)) [
    | inl q ↦ (
      [],
      raw,
      ap (λ c. c ∷ raw) ((==_iff b b'_').0 p),
      rw (p, is_prefix_byte-underscore b p)
          (last_underscore-clean (i + 1) (some i) raw q ∙ ap some (omega arith)),
    )
    | inr q ↦
        let (u, v, is, found) = last_underscore-Cut (i + 1) (some i) raw q in
        (
          b ∷ u,
          v,
          ap (λ l. b ∷ l) is,
          rw (p, is_prefix_byte-underscore b p) (found ∙ ap some (omega arith)),
        )
  ]
  | inr p ↦ elim (Bool-cases (is_prefix_byte b)) [
    | inl q ↦
        let (u, v, is, found) = last_underscore-Cut (i + 1) seen raw (rw (p, q) at h) in
        (b ∷ u, v, ap (λ l. b ∷ l) is, rw (p, q) (found ∙ ap some (omega arith)))
    | inr q ↦ cc (rw (p, q) at h)
  ]
]

same_scan :
    (m m' j j' : ℕ) (raw : Bytes)
    → m ≡ m'
    → j ≡ j'
    → last_underscore m (some j) raw ≡ last_underscore m' (some j') raw
same_scan m m' j j' raw e f = rw (e, f) refl

last_underscore-tags :
    (i : ℕ) (seen : Option ℕ) (hashes : List HashType) (raw : Bytes)
    → last_underscore i seen (b'_' ∷ tags hashes ++ raw)
      ≡ last_underscore (i + suc (length (tags hashes))) (some (i + length (tags hashes))) raw
unfolding last_underscore is_prefix_byte
last_underscore-tags i seen [] raw = same_scan _ _ i (i + 0) raw (omega arith) (omega arith)
last_underscore-tags i seen (sha3_256 ∷ hashes) raw =
    last_underscore-tags (i + 1 + 1) (some i) hashes raw
    ∙ same_scan _ _ _ _ raw (omega arith) (omega arith)
last_underscore-tags i seen (sha3_512 ∷ hashes) raw =
    last_underscore-tags (i + 1 + 1) (some i) hashes raw
    ∙ same_scan _ _ _ _ raw (omega arith) (omega arith)
last_underscore-tags i seen (blake3 ∷ hashes) raw =
    last_underscore-tags (i + 1 + 1) (some i) hashes raw
    ∙ same_scan _ _ _ _ raw (omega arith) (omega arith)

-- The scan of the bytes of a prefix ends with the prefix.
last_underscore-prefix :
    (restricted : Bool) (t : KeyType) (hashes : List HashType) (raw : Bytes)
    → (n : ℕ) × (length (prefix restricted t hashes) ≡ suc n)
      × (last_underscore 0 none (prefix restricted t hashes ++ raw)
          ≡ last_underscore (suc n) (some n) raw)
unfolding last_underscore is_prefix_byte
last_underscore-prefix true ed25519 hashes raw = (
  suc (suc (suc (length (tags hashes)))),
  refl,
  last_underscore-tags 3 (some 1) hashes raw ∙ same_scan _ _ _ _ raw (omega arith) (omega arith),
)
last_underscore-prefix true ed448 hashes raw = (
  suc (suc (suc (length (tags hashes)))),
  refl,
  last_underscore-tags 3 (some 1) hashes raw ∙ same_scan _ _ _ _ raw (omega arith) (omega arith),
)
last_underscore-prefix false ed25519 hashes raw = (
  suc (length (tags hashes)),
  refl,
  last_underscore-tags 1 none hashes raw ∙ same_scan _ _ _ _ raw (omega arith) (omega arith),
)
last_underscore-prefix false ed448 hashes raw = (
  suc (length (tags hashes)),
  refl,
  last_underscore-tags 1 none hashes raw ∙ same_scan _ _ _ _ raw (omega arith) (omega arith),
)

tags_ascii : (hashes : List HashType) → All (λ c. c < 0x80) (tags hashes)
tags_ascii [] = tt
tags_ascii (sha3_256 ∷ hashes) = (omega arith, (omega arith, tags_ascii hashes))
tags_ascii (sha3_512 ∷ hashes) = (omega arith, (omega arith, tags_ascii hashes))
tags_ascii (blake3 ∷ hashes) = (omega arith, (omega arith, tags_ascii hashes))

prefix_ascii :
    (restricted : Bool) (t : KeyType) (hashes : List HashType)
    → All (λ c. c < 0x80) (prefix restricted t hashes)
prefix_ascii true ed25519 hashes =
    (omega arith, (omega arith, (omega arith, (omega arith, tags_ascii hashes))))
prefix_ascii true ed448 hashes =
    (omega arith, (omega arith, (omega arith, (omega arith, tags_ascii hashes))))
prefix_ascii false ed25519 hashes = (omega arith, (omega arith, tags_ascii hashes))
prefix_ascii false ed448 hashes = (omega arith, (omega arith, tags_ascii hashes))

tagged-tags : (hashes : List HashType) (b : Text) → tagged hashes b ≡ tags hashes ++ b
tagged-tags [] b = refl
tagged-tags (h ∷ hashes) b = ap (λ l. hash_letter h ∷ b'_' ∷ l) (tagged-tags hashes b)

identifier-prefix :
    (restricted : Bool) (t : KeyType) (hashes : List HashType) (b : Text)
    → identifier restricted t hashes b ≡ prefix restricted t hashes ++ b
identifier-prefix true t hashes b =
    ap (λ l. b'r' ∷ b'_' ∷ key_letter t ∷ b'_' ∷ l) (tagged-tags hashes b)
identifier-prefix false t hashes b = ap (λ l. key_letter t ∷ b'_' ∷ l) (tagged-tags hashes b)

and_false_right : (b : Bool) → (b && false) ≡ false
and_false_right true = refl
and_false_right false = refl

append_cancel : (p x y : Text) → p ++ x ≡ p ++ y → x ≡ y
append_cancel [] x y h = h
append_cancel (c ∷ p) x y h = append_cancel p x y (cc h)

not_NoUnderscore : (u rest : Text) → NoUnderscore (u ++ b'_' ∷ rest) → ⊥
not_NoUnderscore [] rest (h, _) = cc h
not_NoUnderscore (c ∷ u) rest (_, h) = not_NoUnderscore u rest h

split_after : (p u : Bytes) (c : ℕ) (v : Bytes) → p ++ (u ++ c ∷ v) ≡ (p ++ (u ++ c ∷ [])) ++ v
split_after p u c v = simp append_assoc

module _ (crypto : Crypto) where
  bytes_of_identifier :
      (restricted : Bool) (t : KeyType) (hashes : List HashType) (c : ℕ) (b : Text) (raw : Bytes)
      → NoUnderscore (c ∷ b)
      → crypto.bs58_decode (c ∷ b) ≡ some raw
      → get_public_key_bytes crypto (identifier restricted t hashes (c ∷ b))
        ≡ ok (prefix restricted t hashes ++ raw)
  unfolding get_public_key_bytes is_special starts_with
  bytes_of_identifier true ed25519 hashes c b raw h decoded =
      rw (split_last-identifier true ed25519 hashes (c ∷ b) h, get_public_key_bytes)
        (rw (decoded, utf8_ascii (prefix true ed25519 hashes) (prefix_ascii true ed25519 hashes))
          refl)
  bytes_of_identifier true ed448 hashes c b raw h decoded =
      rw (split_last-identifier true ed448 hashes (c ∷ b) h, get_public_key_bytes)
        (rw (decoded, utf8_ascii (prefix true ed448 hashes) (prefix_ascii true ed448 hashes)) refl)
  bytes_of_identifier false ed25519 hashes c b raw h decoded =
      rw (split_last-identifier false ed25519 hashes (c ∷ b) h, get_public_key_bytes)
        (rw (decoded, utf8_ascii (prefix false ed25519 hashes) (prefix_ascii false ed25519 hashes))
          refl)
  bytes_of_identifier false ed448 hashes c b raw h decoded =
      rw (split_last-identifier false ed448 hashes (c ∷ b) h, get_public_key_bytes)
        (rw (decoded, utf8_ascii (prefix false ed448 hashes) (prefix_ascii false ed448 hashes))
          refl)

  ordinary :
      (restricted : Bool) (t : KeyType) (hashes : List HashType) (raw : Bytes)
      → get_identifier crypto (prefix restricted t hashes ++ raw)
        ≡ cut_identifier crypto (prefix restricted t hashes ++ raw)
  unfolding get_identifier
  ordinary true ed25519 hashes raw = rw (and_false_right _) refl
  ordinary true ed448 hashes raw = rw (and_false_right _) refl
  ordinary false ed25519 hashes raw = rw (and_false_right _) refl
  ordinary false ed448 hashes raw = rw (and_false_right _) refl

  -- What is read back where the last underscore is known.
  cut_at :
      (n : ℕ) (p rest : Bytes) (r : ℕ)
      → last_underscore 0 none (p ++ r ∷ rest) ≡ some n
      → length p ≡ suc n
      → cut_identifier crypto (p ++ r ∷ rest) ≡ ok (p ++ crypto.bs58_encode (r ∷ rest))
  unfolding cut_identifier
  cut_at n p rest r found size =
      let e : n + 1 ≡ length p = omega arith in
      rw (found, cut_identifier)
        (rw (e, drop-append_length p (r ∷ rest), take-append_length p (r ∷ rest)) refl)

  cut_at_end :
      (n : ℕ) (p : Bytes)
      → last_underscore 0 none p ≡ some n
      → length p ≡ suc n
      → cut_identifier crypto p ≡ err no_raw
  unfolding cut_identifier
  cut_at_end n p found size =
      let e : n + 1 ≡ length p = omega arith in
      let nothing : drop (length p) p ≡ [] =
        ap (drop (length p)) (sym (append-nil p)) ∙ drop-append_length p [] in
      rw (found, cut_identifier) (rw (e, nothing) refl)

  -- A cut behind an underscore that is not the prefix's leaves that underscore in the text.
  cut_beyond :
      (n : ℕ) (p u v : Bytes) (b : Text)
      → NoUnderscore b
      → length p ≡ suc n
      → last_underscore 0 none (p ++ (u ++ b'_' ∷ v)) ≡ some (suc n + length u)
      → cut_identifier crypto (p ++ (u ++ b'_' ∷ v)) ≡ ok (p ++ b)
      → ⊥
  cut_beyond n p u [] b h size found same =
      let whole : length (p ++ (u ++ b'_' ∷ [])) ≡ suc (suc n + length u) =
        omega (arith, length-append p (u ++ b'_' ∷ []), length-append u (b'_' ∷ [])) in
      cc (cut_at_end (suc n + length u) (p ++ (u ++ b'_' ∷ [])) found whole, same)
  cut_beyond n p u (r ∷ v) b h size found same =
      let e : p ++ (u ++ b'_' ∷ r ∷ v) ≡ (p ++ (u ++ b'_' ∷ [])) ++ r ∷ v =
        split_after p u b'_' (r ∷ v) in
      let whole : length (p ++ (u ++ b'_' ∷ [])) ≡ suc (suc n + length u) =
        omega (arith, length-append p (u ++ b'_' ∷ []), length-append u (b'_' ∷ [])) in
      let read =
        cut_at (suc n + length u) (p ++ (u ++ b'_' ∷ [])) v r
          (ap (last_underscore 0 none) (sym e) ∙ found) whole in
      let equal : ok ((p ++ (u ++ b'_' ∷ [])) ++ crypto.bs58_encode (r ∷ v)) ≡ ok (p ++ b) =
        sym read ∙ ap (cut_identifier crypto) (sym e) ∙ same in
      let rest : u ++ b'_' ∷ crypto.bs58_encode (r ∷ v) ≡ b =
        append_cancel p (u ++ b'_' ∷ crypto.bs58_encode (r ∷ v)) b
          (split_after p u b'_' (crypto.bs58_encode (r ∷ v)) ∙ cc equal) in
      not_NoUnderscore u (crypto.bs58_encode (r ∷ v)) (subst NoUnderscore (sym rest) h)

  -- An identifier is read back from its bytes, if no underscore stands among those bytes of the key
  -- that follow the prefix and could belong to it.
  pub get_identifier-get_public_key_bytes :
      (restricted : Bool) (t : KeyType) (hashes : List HashType) (c : ℕ) (b : Text) (r : ℕ)
      (raw : Bytes)
      → NoUnderscore (c ∷ b)
      → crypto.bs58_decode (c ∷ b) ≡ some (r ∷ raw)
      → crypto.bs58_encode (r ∷ raw) ≡ c ∷ b
      → clean (r ∷ raw) ≡ true
      → (get_public_key_bytes crypto (identifier restricted t hashes (c ∷ b))
          >>= get_identifier crypto)
        ≡ ok (identifier restricted t hashes (c ∷ b))
  get_identifier-get_public_key_bytes restricted t hashes c b r raw h decoded encoded is_clean =
      let (n, size, scanned) = last_underscore-prefix restricted t hashes (r ∷ raw) in
      rw (bytes_of_identifier restricted t hashes c b (r ∷ raw) h decoded) (
        ordinary restricted t hashes (r ∷ raw)
        ∙ cut_at n (prefix restricted t hashes) raw r
            (scanned ∙ last_underscore-clean (suc n) (some n) (r ∷ raw) is_clean) size
        ∙ ap (λ l. ok (prefix restricted t hashes ++ l)) encoded
        ∙ ap ok (sym (identifier-prefix restricted t hashes (c ∷ b))))

  -- Otherwise it is not: the identifier that is read back, if there is one, is another.
  pub get_identifier-mistaken :
      (restricted : Bool) (t : KeyType) (hashes : List HashType) (c : ℕ) (b : Text) (raw : Bytes)
      → NoUnderscore (c ∷ b)
      → crypto.bs58_decode (c ∷ b) ≡ some raw
      → clean raw ≡ false
      → (get_public_key_bytes crypto (identifier restricted t hashes (c ∷ b))
          >>= get_identifier crypto)
        ≢ ok (identifier restricted t hashes (c ∷ b))
  get_identifier-mistaken restricted t hashes c b raw h decoded unclean same =
      let (n, size, scanned) = last_underscore-prefix restricted t hashes raw in
      let (u, v, is, found) = last_underscore-Cut (suc n) (some n) raw unclean in
      let same' : cut_identifier crypto (prefix restricted t hashes ++ raw)
          ≡ ok (prefix restricted t hashes ++ c ∷ b) =
        sym (ordinary restricted t hashes raw)
        ∙ rw (bytes_of_identifier restricted t hashes c b raw h decoded) at same
        ∙ ap ok (identifier-prefix restricted t hashes (c ∷ b)) in
      cut_beyond n (prefix restricted t hashes) u v (c ∷ b) h size
        (ap (λ l. last_underscore 0 none (prefix restricted t hashes ++ l)) (sym is)
          ∙ scanned
          ∙ found)
        (ap (λ l. cut_identifier crypto (prefix restricted t hashes ++ l)) (sym is) ∙ same')
