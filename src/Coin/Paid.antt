-- ===== src/Coin/Paid.antt =====
-- src/coin-txn/transaction.ts: what the inputs pay and the outputs get, as their transfers say it.
use mathlib.Core.Path.{ap₂, subst}
use kalvora_js.Common.{
  ℕ, suc, ◌+◌, ◌≡◌, ◌⊎◌, inl, inr, refl, sym, ap, ◌∙◌, Bool, true, false, not, none, some, List, [],
  ◌∷◌, ◌++◌, map, ok, err, >>=-eq-ok, throw_if, length, take, drop, All, Text, Option-cases, arith,
}
use kalvora_js.Js.Value.{truthy}
use kalvora_js.Bytes.{Bytes}
use kalvora_js.Coin.{
  CoinInput, Transfer, missing_amount, Services, Processed, given, called, traverse, or_null,
  percent_of, transfer_of, input_step, input_loop, address_step, nonces_of, process_with,
  process_inputs,
}
use kalvora_js.Coin.Steps.{
  IsPlain, IsOwner, key_step, length-traverse, called-ok, first_and_others, plain_flag, owner_flag,
}
use kalvora_js.Coin.Build.{
  Output, OutputTransfer, shown, paying, output_step, process_outputs, input_units, output_units,
}

abbrev pub amounts : List Transfer → List Text
amounts transfers = map (λ t. t.amount) transfers

-- Either no input spends an allowance; or the first one has a key, and the others are owners.
abbrev pub IsSpend : List CoinInput → Type 0
IsSpend inputs =
    All IsPlain inputs
    ⊎ ((authorizer owner : CoinInput) × (owners : List CoinInput) × (key : Text) × (inputs
          ≡ authorizer ∷ owner ∷ owners)
        × (given authorizer.public_key ≡ some key)
        × All IsOwner (owner ∷ owners))

module _ {E : Type 0} (services : Services E) where
  transfer_of-amount :
      (index : ℕ) (input : CoinInput) (t : Transfer)
      → transfer_of services index input ≡ ok t
      → input_units services input ≡ ok t.amount
  unfolding transfer_of input_units
  transfer_of-amount index input t h =
      let (_, set, h1) = >>=-eq-ok (throw_if (not (truthy input.amount)) missing_amount) _ h in
      let (units, converted, h2) = >>=-eq-ok (called (services.to_units input.amount)) _ h1 in
      let (percent, _, h3) = >>=-eq-ok (called (services.scaled_percent (percent_of input))) _ h2 in
      let made : record { index = index; amount = units; fee_percent = percent } ≡ t = cc h3 in
      rw (set) (converted ∙ ap (λ u. ok u.amount) made)

  -- An input without a key, or without allowances, pays what its transfer says.
  paid :
      (allowance : Bool) (index : ℕ) (input : CoinInput) (keys : List Bytes)
      (transfers : List Transfer)
      → (allowance ≡ false) ⊎ (given input.public_key ≡ none)
      → input_step services allowance index input ≡ ok (keys, transfers)
      → (t : Transfer) × (transfers ≡ t ∷ []) × (input_units services input ≡ ok t.amount)
  unfolding input_step
  paid allowance index input keys transfers pays h = elim (Option-cases (given input.public_key)) [
    | inl missing ↦
        let (_, _, h1) = >>=-eq-ok (throw_if (not allowance) _) _ (rw (missing, input_step) at h) in
        let (t, made, h2) = >>=-eq-ok (transfer_of services index input) _ h1 in
        (t, cc h2, transfer_of-amount index input t made)
    | inr (key, is) ↦ elim pays [
      | inr missing ↦ cc (missing, is)
      | inl plain ↦
          let (bytes, _, h1) =
            >>=-eq-ok (called (services.key_bytes key)) _ (rw (is, plain, input_step) at h) in
          let (t, made, h2) = >>=-eq-ok (transfer_of services index input) _ h1 in
          (t, cc h2, transfer_of-amount index input t made)
    ]
  ]

  loop_paid :
      (allowance : Bool) (index : ℕ) (inputs : List CoinInput) (keys : List Bytes)
      (transfers : List Transfer)
      → All (λ input. (allowance ≡ false) ⊎ (given input.public_key ≡ none)) inputs
      → input_loop services allowance index inputs ≡ ok (keys, transfers)
      → traverse (input_units services) inputs ≡ ok (amounts transfers)
  unfolding input_loop traverse
  loop_paid allowance index [] keys transfers pays h =
      let t : [] ≡ transfers = cc h in rw (← t) refl
  loop_paid allowance index (input ∷ inputs) keys transfers (p, pays) h =
      let ((ks, ts), h0, h1) = >>=-eq-ok (input_step services allowance index input) _ h in
      let ((ks', ts'), h2, h3) =
        >>=-eq-ok (input_loop services allowance (index + 1) inputs) _ h1 in
      let (t, ht, units) = paid allowance index input ks ts p h0 in
      let others = loop_paid allowance (index + 1) inputs ks' ts' pays h2 in
      let whole : t ∷ ts' ≡ transfers = ap (λ l. l ++ ts') (sym ht) ∙ cc h3 in
      rw (units, others, ← whole) refl

  owner_pays :
      (inputs : List CoinInput)
      → All IsOwner inputs
      → All (λ input. (true ≡ false) ⊎ (given input.public_key ≡ none)) inputs
  owner_pays [] h = tt
  owner_pays (input ∷ inputs) ((no_key, _), h) = (inr no_key, owner_pays inputs h)

  plain_pays :
      (inputs : List CoinInput)
      → All (λ input. (false ≡ false) ⊎ (given input.public_key ≡ none)) inputs
  plain_pays [] = tt
  plain_pays (input ∷ inputs) = (inl refl, plain_pays inputs)

  -- The input with a key pays nothing where allowances are spent.
  owners_paid :
      (authorizer : CoinInput) (owners : List CoinInput) (key : Text) (keys : List Bytes)
      (transfers : List Transfer)
      → given authorizer.public_key ≡ some key
      → All IsOwner owners
      → input_loop services true 0 (authorizer ∷ owners) ≡ ok (keys, transfers)
      → traverse (input_units services) owners ≡ ok (amounts transfers)
  unfolding input_loop
  owners_paid authorizer owners key keys transfers keyed all_owners h =
      let ((ks, ts), s0, s1) = >>=-eq-ok (input_step services true 0 authorizer) _ h in
      let ((ks', ts'), s2, s3) = >>=-eq-ok (input_loop services true 1 owners) _ s1 in
      let (bytes, _, ht) = key_step services 0 authorizer key ks ts keyed s0 in
      let whole : ts' ≡ transfers = ap (λ l. l ++ ts') (sym ht) ∙ cc s3 in
      loop_paid true 1 owners ks' ts' (owner_pays owners all_owners) s2
      ∙ ap (λ l. ok (amounts l)) whole

  plain_paying :
      (inputs : List CoinInput) (result : Processed)
      → All IsPlain inputs
      → process_inputs services inputs ≡ ok result
      → traverse (input_units services) (paying result.allowance_addresses inputs)
        ≡ ok (amounts result.transfers)
  unfolding process_inputs process_with paying traverse
  plain_paying inputs result plain h =
      let known : process_with services false inputs ≡ ok result =
        subst (λ f. process_with services f inputs ≡ ok result) (plain_flag services inputs plain)
          h in
      let (addresses, _, h1) = >>=-eq-ok (traverse (address_step services) inputs) _ known in
      let (nonces, _, h3) = >>=-eq-ok (nonces_of services inputs addresses) _ h1 in
      let ((keys, transfers), h4, h5) = >>=-eq-ok (input_loop services false 0 inputs) _ h3 in
      let made : record {
        public_keys = keys;
        transfers = transfers;
        nonces = nonces;
        allowance_addresses = none;
        allowance_nonces = none;
      }
          ≡ result =
        cc h5 in
      rw (← made) (loop_paid false 0 inputs keys transfers (plain_pays inputs) h4)

  paying_others :
      (decoded : List Bytes) (n : ℕ) (inputs : List CoinInput)
      → length decoded ≡ suc n
      → paying (or_null decoded) inputs ≡ drop 1 inputs
  unfolding paying
  paying_others [] n inputs h = absurd (omega arith)
  paying_others (d ∷ decoded) n inputs h = refl

  owners_paying :
      (authorizer owner : CoinInput) (owners : List CoinInput) (key : Text) (result : Processed)
      → given authorizer.public_key ≡ some key
      → All IsOwner (owner ∷ owners)
      → process_inputs services (authorizer ∷ owner ∷ owners) ≡ ok result
      → traverse
          (input_units services)
          (paying result.allowance_addresses (authorizer ∷ owner ∷ owners))
        ≡ ok (amounts result.transfers)
  unfolding process_inputs process_with
  owners_paying authorizer owner owners key result keyed all_owners h =
      let inputs = authorizer ∷ owner ∷ owners in
      let known : process_with services true inputs ≡ ok result =
        subst (λ f. process_with services f inputs ≡ ok result)
          (owner_flag services authorizer owner owners all_owners.0) h in
      let (addresses, h0, h1) = >>=-eq-ok (traverse (address_step services) inputs) _ known in
      let (nonces, _, h3) = >>=-eq-ok (nonces_of services inputs addresses) _ h1 in
      let ((keys, transfers), h4, h5) = >>=-eq-ok (input_loop services true 0 inputs) _ h3 in
      let (decoded, h6, h7) =
        >>=-eq-ok (called (traverse services.decode_address (drop 1 addresses))) _ h5 in
      let decoded_count =
        length-traverse services.decode_address (drop 1 addresses) decoded
          (called-ok _ decoded h6) in
      let (_, others) =
        first_and_others addresses (length (owner ∷ owners))
          (length-traverse (address_step services) inputs addresses h0) in
      let made : record {
        public_keys = keys;
        transfers = transfers;
        nonces = take 1 nonces;
        allowance_addresses = or_null decoded;
        allowance_nonces = or_null (drop 1 nonces);
      }
          ≡ result =
        cc h7 in
      rw (← made, paying_others decoded (length owners) inputs (decoded_count ∙ others))
        (owners_paid authorizer (owner ∷ owners) key keys transfers keyed all_owners h4)

  pub process_inputs-paying :
      (inputs : List CoinInput) (result : Processed)
      → IsSpend inputs
      → process_inputs services inputs ≡ ok result
      → traverse (input_units services) (paying result.allowance_addresses inputs)
        ≡ ok (amounts result.transfers)
  process_inputs-paying inputs result (inl plain) h = plain_paying inputs result plain h
  process_inputs-paying inputs result (inr (authorizer, owner, owners, key, is, keyed, all_owners))
        h =
      subst
        (λ l.
          traverse (input_units services) (paying result.allowance_addresses l)
          ≡ ok (amounts result.transfers))
        (sym is)
        (owners_paying authorizer owner owners key result keyed all_owners
          (ap (process_inputs services) (sym is) ∙ h))

  output_step-units :
      (output : Output) (t : OutputTransfer)
      → output_step services output ≡ ok t
      → (units : Text) × (output_units services output ≡ ok units) × (t.amount ≡ shown units)
  unfolding output_step output_units
  output_step-units output t h =
      let (units, converted, h1) = >>=-eq-ok (called (services.to_units output.amount)) _ h in
      let (wallet, _, h2) = >>=-eq-ok (called (services.decode_address output.to)) _ h1 in
      (units, converted, ap (λ r. elim r [ ok u ↦ u.amount | err e ↦ shown units ]) (sym h2))

  pub outputs_units :
      (outputs : List Output) (transfers : List OutputTransfer)
      → process_outputs services outputs ≡ ok transfers
      → (units : List Text) × (traverse (output_units services) outputs ≡ ok units)
        × (map (λ t. t.amount) transfers ≡ map shown units)
  unfolding process_outputs traverse
  outputs_units [] transfers h = let e : [] ≡ transfers = cc h in ([], refl, rw (← e) refl)
  outputs_units (output ∷ outputs) transfers h =
      let (t, h0, h1) = >>=-eq-ok (output_step services output) _ h in
      let (ts, h2, h3) = >>=-eq-ok (traverse (output_step services) outputs) _ h1 in
      let (units, converted, is) = output_step-units output t h0 in
      let (all_units, all_converted, are) = outputs_units outputs ts h2 in
      let whole : t ∷ ts ≡ transfers = cc h3 in
      (
        units ∷ all_units,
        rw (converted, all_converted) refl,
        rw (← whole) (ap₂ (λ a l. a ∷ l) is are),
      )
