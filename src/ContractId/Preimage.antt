-- ===== src/ContractId/Preimage.antt =====
-- src/protocol/contract-id.ts: equal preimages come from equal inputs, and preimages of different
-- kinds are never equal.
use mathlib.Core.List.{flatten}
use mathlib.Core.Option
use kalvora_js.Common.{◌≡◌, sym, ap, ◌∙◌, List, [], ◌∷◌, ◌++◌, map, ok, codes}
use kalvora_js.Common.Int.{ℤ}
use kalvora_js.Js.Utf8.{utf8}
use kalvora_js.Bytes.{Bytes}
use kalvora_js.ContractId.{
  ContractData, concat, u32, prefixed_string, canonical_decimal, head_parts, supply_parts,
  denomination_parts, releases_of, schedule_parts, contract_data_parts,
}
use kalvora_js.ContractId.Codes.{concat-flatten, >>=-eq-ok, u32-IsCode, prefixed_string-IsCode}
use kalvora_js.ContractId.Fields.{
  IsPartsCode, reflow, flatten-append, flatten_three, supply-IsCode, denomination-IsCode,
  denomination_view, release_view, schedule-IsCode,
}

-- Two inputs that agree in everything that the identifier commits to: texts by their bytes, amounts
-- by their canonical decimals.
pub record SameData (i j : ContractData) : Type 0 where
  pub symbol : utf8 i.symbol ≡ utf8 j.symbol
  pub contract_type : i.contract_type ≡ j.contract_type
  pub max_supply :
      Option.map canonical_decimal i.max_supply ≡ Option.map canonical_decimal j.max_supply
  pub denomination :
      Option.map denomination_view i.coin_denomination
      ≡ Option.map denomination_view j.coin_denomination
  pub releases : map release_view (releases_of i) ≡ map release_view (releases_of j)

abbrev head_view : ContractData → Bytes × ℤ
head_view i = (utf8 i.symbol, i.contract_type)

pub head_ok :
    (i : ContractData) (a : List Bytes)
    → head_parts i ≡ ok a
    → (d s k : Bytes) × (prefixed_string (codes "KALVORA_CONTRACT_DATA_V1") ≡ ok d)
      × (prefixed_string i.symbol ≡ ok s)
      × (u32 i.contract_type ≡ ok k)
      × (a ≡ d ∷ s ∷ k ∷ [])
unfolding head_parts
head_ok i a h =
    let (d, hd, h1) = >>=-eq-ok (prefixed_string (codes "KALVORA_CONTRACT_DATA_V1")) _ h in
    let (s, hs, h2) = >>=-eq-ok (prefixed_string i.symbol) _ h1 in
    let (k, hk, h3) = >>=-eq-ok (u32 i.contract_type) _ h2 in (d, s, k, hd, hs, hk, cc h3)

head-IsCode : IsPartsCode head_parts head_view
head-IsCode x y a b r s ha hb e =
    let (d, n, k, hd, hn, hk, ea) = head_ok x a ha in
    let (d', n', k', hd', hn', hk', eb) = head_ok y b hb in
    let e0 = reflow r s ea eb (flatten_three d n k r) (flatten_three d' n' k' s) e in
    let (_, e1) = prefixed_string-IsCode _ _ d d' _ _ hd hd' e0 in
    let (symbol, e2) = prefixed_string-IsCode _ _ n n' _ _ hn hn' e1 in
    let (kind, e3) = u32-IsCode _ _ k k' r s hk hk' e2 in (cc (symbol, kind), e3)

pub record DataParts (i : ContractData) (p : List Bytes) : Type 0 where
  pub head : List Bytes
  pub supply : List Bytes
  pub denomination : List Bytes
  pub schedule : List Bytes
  pub head_ok : head_parts i ≡ ok head
  pub supply_ok : supply_parts i.max_supply ≡ ok supply
  pub denomination_ok : denomination_parts i.coin_denomination ≡ ok denomination
  pub schedule_ok : schedule_parts (releases_of i) ≡ ok schedule
  pub whole : p ≡ head ++ (supply ++ (denomination ++ schedule))

pub data_ok : (i : ContractData) (p : List Bytes) → contract_data_parts i ≡ ok p → DataParts i p
unfolding contract_data_parts
data_ok i p h =
    let (a, ha, h1) = >>=-eq-ok (head_parts i) _ h in
    let (b, hb, h2) = >>=-eq-ok (supply_parts i.max_supply) _ h1 in
    let (c, hc, h3) = >>=-eq-ok (denomination_parts i.coin_denomination) _ h2 in
    let (d, hd, h4) = >>=-eq-ok (schedule_parts (releases_of i)) _ h3 in
    record {
      head = a;
      supply = b;
      denomination = c;
      schedule = d;
      head_ok = ha;
      supply_ok = hb;
      denomination_ok = hc;
      schedule_ok = hd;
      whole = cc h4;
    }

pub flatten_fields :
    (a b c d : List Bytes) (r : Bytes)
    → flatten (a ++ (b ++ (c ++ d))) ++ r
      ≡ flatten a ++ (flatten b ++ (flatten c ++ (flatten d ++ r)))
flatten_fields a b c d r =
    flatten-append a (b ++ (c ++ d)) r
    ∙ ap (λ t. flatten a ++ t)
        (flatten-append b (c ++ d) r ∙ ap (λ t. flatten b ++ t) (flatten-append c d r))

concat-eq : (p q : List Bytes) → concat p ≡ concat q → flatten p ++ [] ≡ flatten q ++ []
concat-eq p q e = ap (λ t. t ++ []) (sym (concat-flatten p) ∙ e ∙ concat-flatten q)

-- Where two inputs are accepted and what would be hashed of them is equal, they have the same
-- symbol, type, supply, denomination and release schedule: no field can be moved into another.
pub contract_data_parts-inj :
    (i j : ContractData) (p q : List Bytes)
    → contract_data_parts i ≡ ok p
    → contract_data_parts j ≡ ok q
    → concat p ≡ concat q
    → SameData i j
contract_data_parts-inj i j p q hp hq e =
    let x = data_ok i p hp in
    let y = data_ok j q hq in
    let e0 =
      reflow [] [] x.whole y.whole (flatten_fields x.head x.supply x.denomination x.schedule [])
        (flatten_fields y.head y.supply y.denomination y.schedule []) (concat-eq p q e) in
    let (head, e1) = head-IsCode i j x.head y.head _ _ x.head_ok y.head_ok e0 in
    let (supply, e2) = supply-IsCode _ _ x.supply y.supply _ _ x.supply_ok y.supply_ok e1 in
    let (denomination, e3) =
      denomination-IsCode _ _ x.denomination y.denomination _ _ x.denomination_ok y.denomination_ok
        e2 in
    let (schedule, e4) =
      schedule-IsCode _ _ x.schedule y.schedule _ _ x.schedule_ok y.schedule_ok e3 in
    record {
      symbol = ap (λ (v : Bytes × ℤ). v.0) head;
      contract_type = ap (λ (v : Bytes × ℤ). v.1) head;
      max_supply = supply;
      denomination = denomination;
      releases = schedule;
    }
