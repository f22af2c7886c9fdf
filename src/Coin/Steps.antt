-- ===== src/Coin/Steps.antt =====
-- src/coin-txn/transaction.ts: what one input, and the loop over the inputs, give of keys and transfers.
use mathlib.Core.Path.{ap₂}
use kalvora_js.Common.{
  ℕ, zero, suc, ◌+◌, ◌≡◌, refl, sym, ap, ◌∙◌, Bool, true, false, not, ◌||◌, none, some, List, [],
  ◌∷◌, ◌++◌, arith, Result, ok, err, >>=-eq-ok, throw_if, length, take, drop, all, All, Text,
  Bool-cases, Option-cases, inl, inr,
}
use kalvora_js.Js.Value.{truthy}
use kalvora_js.Bytes.{Bytes}
use kalvora_js.Coin.{
  CoinInput, Transfer, missing_amount, Services, given, is_some, called, traverse, or_null,
  is_allowance, nonces_of, percent_of, transfer_of, input_step, input_loop,
}

-- The indexes from one on.
abbrev pub count : ℕ → ℕ → List ℕ
count from zero = []
count from (suc n) = from ∷ count (from + 1) n

abbrev pub indexes : List Transfer → List ℕ
indexes [] = []
indexes (t ∷ transfers) = t.index ∷ indexes transfers

abbrev pub IsPlain : CoinInput → Type 0
IsPlain input = given input.allowance_address ≡ none

-- An owner whose allowance is spent: an address, and no key.
abbrev pub IsOwner : CoinInput → Type 0
IsOwner input =
    (given input.public_key ≡ none)
    × ((address : Text) × (given input.allowance_address ≡ some address))

pub length-traverse :
    {E A B : Type 0} (f : A → Result E B) (xs : List A) (ys : List B)
    → traverse f xs ≡ ok ys
    → length ys ≡ length xs
unfolding traverse
length-traverse f [] ys h = let e : [] ≡ ys = cc h in rw (← e) refl
length-traverse f (x ∷ xs) ys h =
    let (b, _, h1) = >>=-eq-ok (f x) _ h in
    let (bs, e, h2) = >>=-eq-ok (traverse f xs) _ h1 in
    let whole : b ∷ bs ≡ ys = cc h2 in rw (← whole) (ap suc (length-traverse f xs bs e))

pub called-ok : {E A : Type 0} (r : Result E A) (a : A) → called r ≡ ok a → r ≡ ok a
called-ok (ok b) a h = cc h
called-ok (err e) a h = cc h

or_true : (b : Bool) → (b || true) ≡ true
or_true true = refl
or_true false = refl

pub first_and_others :
    {A : Type 0} (xs : List A) (n : ℕ)
    → length xs ≡ suc n
    → (length (take 1 xs) ≡ 1) × (length (drop 1 xs) ≡ n)
first_and_others [] n h = absurd (omega arith)
first_and_others (x ∷ xs) n h = (refl, omega arith)

pub or_null-some : {A : Type 0} (xs : List A) (n : ℕ) → length xs ≡ suc n → or_null xs ≡ some xs
or_null-some [] n h = absurd (omega arith)
or_null-some (x ∷ xs) n h = refl

module _ {E : Type 0} (services : Services E) where
  open services use {fetch_nonces}

  -- What the network documents: one nonce for each address.
  abbrev pub OneEach : Type 0
  OneEach =
      (addresses : List Text) (nonces : List ℕ)
      → fetch_nonces addresses ≡ ok nonces
      → length nonces ≡ length addresses

  pub length-nonces_of :
      OneEach
      → (inputs : List CoinInput) (addresses : List Text) (nonces : List ℕ)
      → length addresses ≡ length inputs
      → nonces_of services inputs addresses ≡ ok nonces
      → length nonces ≡ length inputs
  unfolding nonces_of
  length-nonces_of one inputs addresses nonces same h =
      elim (Bool-cases (all (λ input. is_some input.nonce) inputs)) [
        | inl set ↦ length-traverse _ inputs nonces (rw set at h)
        | inr fetched ↦ one addresses nonces (called-ok _ nonces (rw fetched at h)) ∙ same
      ]

  transfer_of-index :
      (index : ℕ) (input : CoinInput) (t : Transfer)
      → transfer_of services index input ≡ ok t
      → t.index ≡ index
  unfolding transfer_of
  transfer_of-index index input t h =
      let (_, _, h1) = >>=-eq-ok (throw_if (not (truthy input.amount)) missing_amount) _ h in
      let (units, _, h2) = >>=-eq-ok (called (services.to_units input.amount)) _ h1 in
      let (percent, _, h3) = >>=-eq-ok (called (services.scaled_percent (percent_of input))) _ h2 in
      let made : record { index = index; amount = units; fee_percent = percent } ≡ t = cc h3 in
      ap (λ u. u.index) (sym made)

  -- Without allowances an input gives a key and a transfer.
  plain_step :
      (index : ℕ) (input : CoinInput) (keys : List Bytes) (transfers : List Transfer)
      → input_step services false index input ≡ ok (keys, transfers)
      → (key : Bytes) × (t : Transfer) × (keys ≡ key ∷ [])
        × (transfers ≡ t ∷ [])
        × (t.index ≡ index)
  unfolding input_step
  plain_step index input keys transfers h = elim (Option-cases (given input.public_key)) [
    | inl missing ↦ cc (rw (missing, input_step) at h)
    | inr (key, is) ↦
        let (bytes, _, h1) =
          >>=-eq-ok (called (services.key_bytes key)) _ (rw (is, input_step) at h) in
        let (t, made, h2) = >>=-eq-ok (transfer_of services index input) _ h1 in
        (bytes, t, cc h2, cc h2, transfer_of-index index input t made)
  ]

  -- With them, an owner gives a transfer and no key, and the input with a key gives no transfer.
  owner_step :
      (index : ℕ) (input : CoinInput) (keys : List Bytes) (transfers : List Transfer)
      → given input.public_key ≡ none
      → input_step services true index input ≡ ok (keys, transfers)
      → (t : Transfer) × (keys ≡ []) × (transfers ≡ t ∷ []) × (t.index ≡ index)
  unfolding input_step
  owner_step index input keys transfers no_key h =
      let (t, made, h2) =
        >>=-eq-ok (transfer_of services index input) _ (rw (no_key, input_step) at h) in
      (t, cc h2, cc h2, transfer_of-index index input t made)

  pub key_step :
      (index : ℕ) (input : CoinInput) (key : Text) (keys : List Bytes) (transfers : List Transfer)
      → given input.public_key ≡ some key
      → input_step services true index input ≡ ok (keys, transfers)
      → (bytes : Bytes) × (keys ≡ bytes ∷ []) × (transfers ≡ [])
  unfolding input_step
  key_step index input key keys transfers is h =
      let (bytes, _, h1) =
        >>=-eq-ok (called (services.key_bytes key)) _ (rw (is, input_step) at h) in
      (bytes, cc h1, cc h1)

  pub plain_loop :
      (index : ℕ) (inputs : List CoinInput) (keys : List Bytes) (transfers : List Transfer)
      → input_loop services false index inputs ≡ ok (keys, transfers)
      → (length keys ≡ length inputs) × (indexes transfers ≡ count index (length inputs))
  unfolding input_loop
  plain_loop index [] keys transfers h =
      let k : [] ≡ keys = cc h in let t : [] ≡ transfers = cc h in (rw (← k) refl, rw (← t) refl)
  plain_loop index (input ∷ inputs) keys transfers h =
      let ((ks, ts), h0, h1) = >>=-eq-ok (input_step services false index input) _ h in
      let ((ks', ts'), h2, h3) = >>=-eq-ok (input_loop services false (index + 1) inputs) _ h1 in
      let (key, t, hk, ht, hi) = plain_step index input ks ts h0 in
      let (lengths, is) = plain_loop (index + 1) inputs ks' ts' h2 in
      let whole_k : key ∷ ks' ≡ keys = ap (λ l. l ++ ks') (sym hk) ∙ cc h3 in
      let whole_t : t ∷ ts' ≡ transfers = ap (λ l. l ++ ts') (sym ht) ∙ cc h3 in
      (rw (← whole_k) (ap suc lengths), rw (← whole_t) (ap₂ (λ i js. i ∷ js) hi is))

  owner_loop :
      (index : ℕ) (inputs : List CoinInput) (keys : List Bytes) (transfers : List Transfer)
      → All IsOwner inputs
      → input_loop services true index inputs ≡ ok (keys, transfers)
      → (keys ≡ []) × (indexes transfers ≡ count index (length inputs))
  unfolding input_loop
  owner_loop index [] keys transfers all_owners h =
      (cc h, let t : [] ≡ transfers = cc h in rw (← t) refl)
  owner_loop index (input ∷ inputs) keys transfers ((no_key, _), owners) h =
      let ((ks, ts), h0, h1) = >>=-eq-ok (input_step services true index input) _ h in
      let ((ks', ts'), h2, h3) = >>=-eq-ok (input_loop services true (index + 1) inputs) _ h1 in
      let (t, hk, ht, hi) = owner_step index input ks ts no_key h0 in
      let (none_left, is) = owner_loop (index + 1) inputs ks' ts' owners h2 in
      let whole_k : ks' ≡ keys = ap (λ l. l ++ ks') (sym hk) ∙ cc h3 in
      let whole_t : t ∷ ts' ≡ transfers = ap (λ l. l ++ ts') (sym ht) ∙ cc h3 in
      (sym whole_k ∙ none_left, rw (← whole_t) (ap₂ (λ i js. i ∷ js) hi is))

  -- The first input gives the key, the owners the transfers.
  pub allowance_loop :
      (authorizer : CoinInput) (owners : List CoinInput) (key : Text) (keys : List Bytes)
      (transfers : List Transfer)
      → given authorizer.public_key ≡ some key
      → All IsOwner owners
      → input_loop services true 0 (authorizer ∷ owners) ≡ ok (keys, transfers)
      → (length keys ≡ 1) × (indexes transfers ≡ count 1 (length owners))
  unfolding input_loop
  allowance_loop authorizer owners key keys transfers keyed all_owners h =
      let ((ks, ts), s0, s1) = >>=-eq-ok (input_step services true 0 authorizer) _ h in
      let ((ks', ts'), s2, s3) = >>=-eq-ok (input_loop services true 1 owners) _ s1 in
      let (bytes, hk, ht) = key_step 0 authorizer key ks ts keyed s0 in
      let (none_left, is) = owner_loop 1 owners ks' ts' all_owners s2 in
      let whole_k : bytes ∷ [] ≡ keys = ap₂ (λ a b. a ++ b) (sym hk) (sym none_left) ∙ cc s3 in
      let whole_t : ts' ≡ transfers = ap (λ l. l ++ ts') (sym ht) ∙ cc s3 in
      (rw (← whole_k) refl, rw (← whole_t) is)

  pub plain_flag :
      (inputs : List CoinInput) → All IsPlain inputs → is_allowance services inputs ≡ false
  unfolding is_allowance
  plain_flag [] h = refl
  plain_flag (input ∷ inputs) (p, h) = rw (p, plain_flag inputs h) refl

  pub owner_flag :
      (authorizer owner : CoinInput) (owners : List CoinInput)
      → IsOwner owner
      → is_allowance services (authorizer ∷ owner ∷ owners) ≡ true
  unfolding is_allowance
  owner_flag authorizer owner owners (_, (address, is)) =
      rw is (or_true (is_some (given authorizer.allowance_address)))
