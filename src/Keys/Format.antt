-- ===== src/Keys/Format.antt =====
-- src/adapter/wallet-adapter.ts: the identifiers that `isValidWalletPublicKey` accepts.
use kalvora_js.Common.{
  ℕ, ◌≡◌, ◌↔◌, ◌⊎◌, inl, inr, refl, sym, ap, ◌∙◌, Bool, true, false, ◌&&◌, ◌||◌, none, some, List,
  [], ◌∷◌, Text, ◌==◌, ==_iff, length, if◌then◌else◌, All, all, Bool-cases, Option-cases, arith,
}
use kalvora_js.Js.{starts_with}
use kalvora_js.Bytes.{Bytes}
use kalvora_js.Validation.{is_base58, is_base58_text}
use kalvora_js.Keys.{
  KeyType, ed25519, ed448, HashType, sha3_256, sha3_512, blake3, Crypto, key_letter, hash_letter,
  hash_of, without_restriction, without_tags, type_and_rest, wallet_key_parts, is_valid_wallet_key,
}

-- Each hash type's letter and an underscore, then the Base58 part.
abbrev pub tagged : List HashType → Text → Text
tagged [] b = b
tagged (h ∷ hashes) b = hash_letter h ∷ b'_' ∷ tagged hashes b

abbrev pub identifier : Bool → KeyType → List HashType → Text → Text
identifier true t hashes b = b'r' ∷ b'_' ∷ key_letter t ∷ b'_' ∷ tagged hashes b
identifier false t hashes b = key_letter t ∷ b'_' ∷ tagged hashes b

abbrev pub key_size : KeyType → ℕ
key_size ed25519 = 32
key_size ed448 = 57

abbrev pub NoUnderscore : Text → Type 0
NoUnderscore b = All (λ c. (c == b'_') ≡ false) b

pub hash_of-hash_letter : (h : HashType) → hash_of (hash_letter h) ≡ some h
unfolding hash_of
hash_of-hash_letter sha3_256 = refl
hash_of-hash_letter sha3_512 = refl
hash_of-hash_letter blake3 = refl

pub hash_letter-hash_of : (c : ℕ) (h : HashType) → hash_of c ≡ some h → c ≡ hash_letter h
unfolding hash_of
hash_letter-hash_of c sha3_256 e = ground arith
hash_letter-hash_of c sha3_512 e = ground arith
hash_letter-hash_of c blake3 e = ground arith

base58_not_underscore : (c : ℕ) → is_base58 c ≡ true → (c == b'_') ≡ false
unfolding is_base58
base58_not_underscore c h = ground arith

and_parts : (a b : Bool) → (a && b) ≡ true → (a ≡ true) × (b ≡ true)
and_parts true b h = (refl, h)
and_parts false b h = cc h

all_base58-NoUnderscore : (b : Text) → all is_base58 b ≡ true → NoUnderscore b
all_base58-NoUnderscore [] h = tt
all_base58-NoUnderscore (c ∷ b) h =
    let (first, others) = and_parts (is_base58 c) (all is_base58 b) h in
    (base58_not_underscore c first, all_base58-NoUnderscore b others)

pub base58-NoUnderscore : (b : Text) → is_base58_text b ≡ true → NoUnderscore b
base58-NoUnderscore [] h = tt
base58-NoUnderscore (c ∷ b) h = all_base58-NoUnderscore (c ∷ b) h

without_tags_none : (b : Text) → NoUnderscore b → without_tags b ≡ b
unfolding without_tags
without_tags_none [] h = refl
without_tags_none (c ∷ []) h = refl
without_tags_none (c ∷ d ∷ b) (_, (p, _)) = elim (Option-cases (hash_of c)) [
  | inl e ↦ rw (e, without_tags) refl
  | inr (h, e) ↦ rw (e, without_tags) (rw p refl)
]

without_tags-tagged :
    (hashes : List HashType) (b : Text) → NoUnderscore b → without_tags (tagged hashes b) ≡ b
unfolding without_tags
without_tags-tagged [] b h = without_tags_none b h
without_tags-tagged (sha3_256 ∷ hashes) b h =
    rw (hash_of-hash_letter sha3_256, without_tags) (without_tags-tagged hashes b h)
without_tags-tagged (sha3_512 ∷ hashes) b h =
    rw (hash_of-hash_letter sha3_512, without_tags) (without_tags-tagged hashes b h)
without_tags-tagged (blake3 ∷ hashes) b h =
    rw (hash_of-hash_letter blake3, without_tags) (without_tags-tagged hashes b h)

without_tags-inv : (s : Text) → (hashes : List HashType) × (s ≡ tagged hashes (without_tags s))
unfolding without_tags
without_tags-inv [] = ([], refl)
without_tags-inv (c ∷ []) = ([], refl)
without_tags-inv (c ∷ d ∷ s) = elim (Option-cases (hash_of c)) [
  | inl e ↦ ([], rw (e, without_tags) refl)
  | inr (h, e) ↦ elim (Bool-cases (d == b'_')) [
    | inl p ↦
        let (hashes, is) = without_tags-inv s in
        (
          h ∷ hashes,
          rw (e, without_tags) (rw p (cc (hash_letter-hash_of c h e, (==_iff d b'_').0 p, is))),
        )
    | inr p ↦ ([], rw (e, without_tags) (rw p refl))
  ]
]

without_restriction-inv :
    (key : Text) → (key ≡ b'r' ∷ b'_' ∷ without_restriction key) ⊎ (without_restriction key ≡ key)
unfolding without_restriction starts_with
without_restriction-inv [] = inr refl
without_restriction-inv (c ∷ []) = inr (ground arith)
without_restriction-inv (c ∷ d ∷ key) = elim (Bool-cases (b'r' == c)) [
  | inl p ↦ elim (Bool-cases (b'_' == d)) [
    | inl q ↦ inl (rw (p, q) (cc ((==_iff b'r' c).0 p, (==_iff b'_' d).0 q)))
    | inr q ↦ inr (rw (p, q) refl)
  ]
  | inr p ↦ inr (rw p refl)
]

without_restriction-identifier :
    (restricted : Bool) (t : KeyType) (hashes : List HashType) (b : Text)
    → without_restriction (identifier restricted t hashes b) ≡ identifier false t hashes b
unfolding without_restriction starts_with
without_restriction-identifier true ed25519 hashes b = refl
without_restriction-identifier true ed448 hashes b = refl
without_restriction-identifier false ed25519 hashes b = refl
without_restriction-identifier false ed448 hashes b = refl

parts-identifier :
    (restricted : Bool) (t : KeyType) (hashes : List HashType) (b : Text)
    → is_base58_text b ≡ true
    → wallet_key_parts (identifier restricted t hashes b) ≡ some (key_letter t, b)
unfolding wallet_key_parts type_and_rest
parts-identifier restricted ed25519 hashes b h =
    rw (without_restriction-identifier restricted ed25519 hashes b, wallet_key_parts)
      (rw (without_tags-tagged hashes b (base58-NoUnderscore b h), h) refl)
parts-identifier restricted ed448 hashes b h =
    rw (without_restriction-identifier restricted ed448 hashes b, wallet_key_parts)
      (rw (without_tags-tagged hashes b (base58-NoUnderscore b h), h) refl)

some_inj : {A : Type 0} {x y : A} → some x ≡ some y → x ≡ y
some_inj h = cc h

and_false-none :
    {A : Type 0} (a b : Bool) (x y : A) → b ≡ false → (if a && b then some x else none) ≡ some y → ⊥
and_false-none true b x y q h = cc (rw q at h)
and_false-none false b x y q h = cc h

type_and_rest-inv :
    (s : Text) (c : ℕ) (rest : Text)
    → type_and_rest s ≡ some (c, rest)
    → (t : KeyType) × (hashes : List HashType) × (c ≡ key_letter t)
      × (s ≡ identifier false t hashes rest)
unfolding type_and_rest
type_and_rest-inv [] c rest h = cc h
type_and_rest-inv (c' ∷ []) c rest h = cc h
type_and_rest-inv (c' ∷ d ∷ s) c rest h =
    let (hashes, is) = without_tags-inv s in
    elim (Bool-cases (d == b'_')) [
      | inr q ↦
          absurd (
            and_false-none (c' == b'A' || c' == b'B') (d == b'_') (c', without_tags s) (c, rest) q
              h)
      | inl q ↦ elim (Bool-cases (c' == b'A')) [
        | inl a ↦
            let made : (c', without_tags s) ≡ (c, rest) = some_inj (rw (a, q) at h) in
            (
              ed25519,
              hashes,
              cc (made, (==_iff c' b'A').0 a),
              cc (made, (==_iff c' b'A').0 a, (==_iff d b'_').0 q, is),
            )
        | inr a ↦ elim (Bool-cases (c' == b'B')) [
          | inl b ↦
              let made : (c', without_tags s) ≡ (c, rest) = some_inj (rw (a, b, q) at h) in
              (
                ed448,
                hashes,
                cc (made, (==_iff c' b'B').0 b),
                cc (made, (==_iff c' b'B').0 b, (==_iff d b'_').0 q, is),
              )
          | inr b ↦ cc (rw (a, b) at h)
        ]
      ]
    ]

restored :
    (key s : Text) (t : KeyType) (hashes : List HashType) (b : Text)
    → without_restriction key ≡ s
    → s ≡ identifier false t hashes b
    → (restricted : Bool) × (key ≡ identifier restricted t hashes b)
restored key s t hashes b e is = elim (without_restriction-inv key) [
  | inl r ↦ (true, r ∙ ap (λ l. b'r' ∷ b'_' ∷ l) (e ∙ is))
  | inr r ↦ (false, sym r ∙ e ∙ is)
]

parts-inv :
    (key : Text) (c : ℕ) (b : Text)
    → wallet_key_parts key ≡ some (c, b)
    → (t : KeyType) × (hashes : List HashType) × (c ≡ key_letter t)
      × (restricted : Bool) × (key ≡ identifier restricted t hashes b)
      × (is_base58_text b ≡ true)
unfolding wallet_key_parts
parts-inv key c b h = elim (Option-cases (type_and_rest (without_restriction key))) [
  | inl e ↦ cc (rw (e, wallet_key_parts) at h)
  | inr ((c', b'), e) ↦ elim (Bool-cases (is_base58_text b')) [
    | inr bad ↦ cc (rw (e, bad, wallet_key_parts) at h)
    | inl base58 ↦
        let same : (c', b') ≡ (c, b) = some_inj (rw (e, base58, wallet_key_parts) at h) in
        let e' : type_and_rest (without_restriction key) ≡ some (c, b) = e ∙ ap some same in
        let (t, hashes, letter, s_is) = type_and_rest-inv (without_restriction key) c b e' in
        let (restricted, is) = restored key (without_restriction key) t hashes b refl s_is in
        (t, hashes, letter, restricted, is, ap (λ l. is_base58_text l.1) (sym same) ∙ base58)
  ]
]

size_of_letter :
    (t : KeyType) (c : ℕ) (bytes : Bytes)
    → c ≡ key_letter t
    → (length bytes == (if c == b'A' then 32 else 57)) ≡ true
    → length bytes ≡ key_size t
size_of_letter ed25519 c bytes is h = (==_iff (length bytes) 32).0 (rw is at h)
size_of_letter ed448 c bytes is h = (==_iff (length bytes) 57).0 (rw is at h)

has_size :
    (t : KeyType) (bytes : Bytes)
    → length bytes ≡ key_size t
    → (length bytes == (if key_letter t == b'A' then 32 else 57)) ≡ true
has_size ed25519 bytes h = (==_iff (length bytes) 32).1 h
has_size ed448 bytes h = (==_iff (length bytes) 57).1 h

-- A text in the form that the expression describes, whose Base58 part decodes to as many bytes as a
-- key of its type has.
abbrev pub IsWalletKey : Crypto → Text → Type 0
IsWalletKey crypto key =
    (restricted : Bool) × (t : KeyType) × (hashes : List HashType) × (b : Text) × (bytes : Bytes)
    × (key ≡ identifier restricted t hashes b)
    × (is_base58_text b ≡ true)
    × (crypto.bs58_decode b ≡ some bytes)
    × (length bytes ≡ key_size t)

module _ (crypto : Crypto) where
  accepted : (key : Text) → is_valid_wallet_key crypto key ≡ true → IsWalletKey crypto key
  unfolding is_valid_wallet_key
  accepted key h = elim (Option-cases (wallet_key_parts key)) [
    | inl e ↦ cc (rw (e, is_valid_wallet_key) at h)
    | inr ((c, b), e) ↦
        let (t, hashes, letter, restricted, is, base58) = parts-inv key c b e in
        elim (Option-cases (crypto.bs58_decode b)) [
          | inl none_left ↦ cc (rw (e, none_left, is_valid_wallet_key) at h)
          | inr (bytes, decoded) ↦
              let sized : (length bytes == (if c == b'A' then 32 else 57)) ≡ true =
                rw (e, decoded, is_valid_wallet_key) at h in
              (
                restricted,
                t,
                hashes,
                b,
                bytes,
                is,
                base58,
                decoded,
                size_of_letter t c bytes letter sized,
              )
        ]
  ]

  -- The identifiers that are accepted are exactly: `r_` or not, the key type's letter and an
  -- underscore, hash letters each with an underscore, and a Base58 text that decodes to 32 bytes for
  -- Ed25519, 57 for Ed448.
  pub is_valid_wallet_key_iff :
      (key : Text) → (is_valid_wallet_key crypto key ≡ true) ↔ IsWalletKey crypto key
  unfolding is_valid_wallet_key
  is_valid_wallet_key_iff key = (
    accepted key,
    λ (restricted, t, hashes, b, bytes, is, base58, decoded, size). rw is (
        rw (parts-identifier restricted t hashes b base58, is_valid_wallet_key)
          (rw decoded (has_size t bytes size))),
  )
