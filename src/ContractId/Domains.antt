-- ===== src/ContractId/Domains.antt =====
-- src/protocol/contract-id.ts: the preimages of genesis and ordinary identifiers.
use mathlib.Core.List.{flatten, append-nil}
use kalvora_js.Common.{
  ◌≡◌, ◌≢◌, refl, sym, ap, ◌∙◌, List, [], ◌∷◌, ◌++◌, ok, Text, codes, text_eq, text_eq_iff, false,
}
use kalvora_js.Common.Int.{ℤ}
use kalvora_js.Js.Utf8.{utf8}
use kalvora_js.Bytes.{Bytes}
use kalvora_js.ContractId.{
  ContractData, OrdinaryId, concat, u8, u64, length_prefixed, prefixed_string, contract_data_parts,
  genesis_parts, ordinary_parts,
}
use kalvora_js.ContractId.Fields.{flatten_three}
use kalvora_js.ContractId.Preimage.{head_ok, data_ok, flatten_fields}
use kalvora_js.ContractId.Codes.{
  concat-flatten, >>=-eq-ok, u8-IsCode, u64-IsCode, length_prefixed-IsCode, prefixed_string-IsCode,
}

abbrev genesis_domain : Text
genesis_domain = codes "KALVORA_NATIVE_TOKEN_ID_V1"

abbrev ordinary_domain : Text
ordinary_domain = codes "KALVORA_CONTRACT_ID_V1"

abbrev data_domain : Text
data_domain = codes "KALVORA_CONTRACT_DATA_V1"

abbrev network : Text
network = codes "KALVORA_MAINNET_V1"

-- The preimage starts with the encoding of a domain.
abbrev StartsWith : Text → List Bytes → Type 0
StartsWith domain p = (d rest : Bytes) × (prefixed_string domain ≡ ok d) × (flatten p ≡ d ++ rest)

genesis_ok :
    (n : ℤ) (p : List Bytes)
    → genesis_parts n ≡ ok p
    → (d w k : Bytes) × (prefixed_string genesis_domain ≡ ok d)
      × (prefixed_string network ≡ ok w)
      × (u64 n ≡ ok k)
      × (flatten p ≡ d ++ (w ++ (k ++ [])))
unfolding genesis_parts flatten
genesis_ok n p h =
    let (d, hd, h1) = >>=-eq-ok (prefixed_string genesis_domain) _ h in
    let (w, hw, h2) = >>=-eq-ok (prefixed_string network) _ h1 in
    let (k, hk, h3) = >>=-eq-ok (u64 n) _ h2 in
    let whole : p ≡ d ∷ w ∷ k ∷ [] = cc h3 in (d, w, k, hd, hw, hk, ap flatten whole)

record OrdinaryParts (i : OrdinaryId) (p : List Bytes) : Type 0 where
  domain : Bytes
  net : Bytes
  authorization : Bytes
  algorithm : Bytes
  creator : Bytes
  nonce : Bytes
  data_hash : Bytes
  domain_ok : prefixed_string ordinary_domain ≡ ok domain
  net_ok : prefixed_string network ≡ ok net
  authorization_ok : u8 i.authorization_type ≡ ok authorization
  algorithm_ok : u8 i.key_algorithm ≡ ok algorithm
  creator_ok : length_prefixed i.authorization_bytes ≡ ok creator
  nonce_ok : u64 i.vanity_nonce ≡ ok nonce
  data_hash_ok : length_prefixed i.contract_data_hash ≡ ok data_hash
  whole :
      flatten p
      ≡ domain
        ++ (net ++ (authorization ++ (algorithm ++ (creator ++ (nonce ++ (data_hash ++ []))))))

ordinary_ok : (i : OrdinaryId) (p : List Bytes) → ordinary_parts i ≡ ok p → OrdinaryParts i p
unfolding ordinary_parts flatten
ordinary_ok i p h =
    let (d, hd, h1) = >>=-eq-ok (prefixed_string ordinary_domain) _ h in
    let (w, hw, h2) = >>=-eq-ok (prefixed_string network) _ h1 in
    let (a, ha, h3) = >>=-eq-ok (u8 i.authorization_type) _ h2 in
    let (g, hg, h4) = >>=-eq-ok (u8 i.key_algorithm) _ h3 in
    let (c, hc, h5) = >>=-eq-ok (length_prefixed i.authorization_bytes) _ h4 in
    let (n, hn, h6) = >>=-eq-ok (u64 i.vanity_nonce) _ h5 in
    let (k, hk, h7) = >>=-eq-ok (length_prefixed i.contract_data_hash) _ h6 in
    let whole : p ≡ d ∷ w ∷ a ∷ g ∷ c ∷ n ∷ k ∷ [] = cc h7 in
    record {
      domain = d;
      net = w;
      authorization = a;
      algorithm = g;
      creator = c;
      nonce = n;
      data_hash = k;
      domain_ok = hd;
      net_ok = hw;
      authorization_ok = ha;
      algorithm_ok = hg;
      creator_ok = hc;
      nonce_ok = hn;
      data_hash_ok = hk;
      whole = ap flatten whole;
    }

flatten-eq : (p q : List Bytes) → concat p ≡ concat q → flatten p ≡ flatten q
flatten-eq p q e = sym (concat-flatten p) ∙ e ∙ concat-flatten q

-- Ordinary identifiers commit to every field of their input: where two inputs are accepted and what
-- would be hashed of them is equal, the inputs are equal.
pub ordinary_parts-inj :
    (i j : OrdinaryId) (p q : List Bytes)
    → ordinary_parts i ≡ ok p
    → ordinary_parts j ≡ ok q
    → concat p ≡ concat q
    → i ≡ j
ordinary_parts-inj i j p q hp hq e =
    let x = ordinary_ok i p hp in
    let y = ordinary_ok j q hq in
    let e0 = sym x.whole ∙ flatten-eq p q e ∙ y.whole in
    let (_, e1) = prefixed_string-IsCode _ _ x.domain y.domain _ _ x.domain_ok y.domain_ok e0 in
    let (_, e2) = prefixed_string-IsCode _ _ x.net y.net _ _ x.net_ok y.net_ok e1 in
    let (authorization, e3) =
      u8-IsCode _ _ x.authorization y.authorization _ _ x.authorization_ok y.authorization_ok e2 in
    let (algorithm, e4) =
      u8-IsCode _ _ x.algorithm y.algorithm _ _ x.algorithm_ok y.algorithm_ok e3 in
    let (creator, e5) =
      length_prefixed-IsCode _ _ x.creator y.creator _ _ x.creator_ok y.creator_ok e4 in
    let (nonce, e6) = u64-IsCode _ _ x.nonce y.nonce _ _ x.nonce_ok y.nonce_ok e5 in
    let (data_hash, e7) =
      length_prefixed-IsCode _ _ x.data_hash y.data_hash _ _ x.data_hash_ok y.data_hash_ok e6 in
    cc (authorization, algorithm, creator, nonce, data_hash)

-- Genesis identifiers commit to the nonce: equal preimages come from equal nonces.
genesis_parts-inj :
    (m n : ℤ) (p q : List Bytes)
    → genesis_parts m ≡ ok p
    → genesis_parts n ≡ ok q
    → concat p ≡ concat q
    → m ≡ n
genesis_parts-inj m n p q hp hq e =
    let (d, w, k, hd, hw, hk, whole) = genesis_ok m p hp in
    let (d', w', k', hd', hw', hk', whole') = genesis_ok n q hq in
    let e0 = sym whole ∙ flatten-eq p q e ∙ whole' in
    let (_, e1) = prefixed_string-IsCode _ _ d d' _ _ hd hd' e0 in
    let (_, e2) = prefixed_string-IsCode _ _ w w' _ _ hw hw' e1 in
    (u64-IsCode _ _ k k' _ _ hk hk' e2).0

genesis-StartsWith : (n : ℤ) (p : List Bytes) → genesis_parts n ≡ ok p → StartsWith genesis_domain p
genesis-StartsWith n p h =
    let (d, w, k, hd, hw, hk, whole) = genesis_ok n p h in (d, w ++ (k ++ []), hd, whole)

ordinary-StartsWith :
    (i : OrdinaryId) (p : List Bytes) → ordinary_parts i ≡ ok p → StartsWith ordinary_domain p
ordinary-StartsWith i p h = let x = ordinary_ok i p h in (x.domain, _, x.domain_ok, x.whole)

data-StartsWith :
    (i : ContractData) (p : List Bytes) → contract_data_parts i ≡ ok p → StartsWith data_domain p
data-StartsWith i p h =
    let x = data_ok i p h in
    let (d, s, k, hd, hs, hk, e) = head_ok i x.head x.head_ok in
    let others : Bytes =
      flatten x.supply ++ (flatten x.denomination ++ (flatten x.schedule ++ [])) in
    (
      d,
      _,
      hd,
      sym (append-nil (flatten p))
          ∙ ap (λ t. flatten t ++ []) x.whole
          ∙ flatten_fields x.head x.supply x.denomination x.schedule []
          ∙ ap (λ t. flatten t ++ others) e
          ∙ flatten_three d s k others,
    )

-- Starting with different domains, two preimages differ.
apart :
    (x y : Text) (p q : List Bytes)
    → StartsWith x p
    → StartsWith y q
    → text_eq (utf8 x) (utf8 y) ≡ false
    → concat p ≢ concat q
apart x y p q (d, r, hd, ep) (d', r', hd', eq) differ e =
    let same = (prefixed_string-IsCode x y d d' r r' hd hd' (sym ep ∙ flatten-eq p q e ∙ eq)).0 in
    cc (differ, (text_eq_iff (utf8 x) (utf8 y)).1 same)

domains_differ :
    (text_eq (utf8 genesis_domain) (utf8 ordinary_domain) ≡ false)
    × (text_eq (utf8 genesis_domain) (utf8 data_domain) ≡ false)
    × (text_eq (utf8 ordinary_domain) (utf8 data_domain) ≡ false)
unfolding utf8
domains_differ = (refl, refl, refl)

-- No preimage of a genesis identifier, of an ordinary identifier and of a contract-data hash is
-- equal to one of another kind.
pub preimages_apart :
    (n : ℤ) (i : OrdinaryId) (c : ContractData) (p q r : List Bytes)
    → genesis_parts n ≡ ok p
    → ordinary_parts i ≡ ok q
    → contract_data_parts c ≡ ok r
    → (concat p ≢ concat q) × (concat p ≢ concat r) × (concat q ≢ concat r)
preimages_apart n i c p q r hp hq hr =
    let g = genesis-StartsWith n p hp in
    let o = ordinary-StartsWith i q hq in
    let d = data-StartsWith c r hr in
    (
      apart genesis_domain ordinary_domain p q g o domains_differ.0,
      apart genesis_domain data_domain p r g d domains_differ.1,
      apart ordinary_domain data_domain q r o d domains_differ.2,
    )
