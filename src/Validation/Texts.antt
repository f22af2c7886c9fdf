-- ===== src/Validation/Texts.antt =====
-- src/shared/utils/validation.ts: what the validators of texts accept.
use mathlib.Core.Path.{subst}
use kalvora_js.Common.{
  ◌≤◌, ◌≡◌, ◌≢◌, ◌↔◌, ◌⊎◌, inl, inr, refl, sym, ap, ◌∙◌, Bool, true, false, not, none, [], ◌∷◌,
  arith, ◌==◌, if◌then◌else◌, length, any, Text, text_eq_iff, Bool-cases,
}
use kalvora_js.Js.{trim}
use kalvora_js.Js.Value.{
  Value, undefined, null, boolean, number, bigint, string, array, decimal, object, truthy,
}
use kalvora_js.ContractId.{Primitives}
use kalvora_js.MintId.{is_mint_id_text}
use kalvora_js.Validation.{
  ValidationError, contract_id_required, contract_id_not_string, invalid_mint_id, key_required,
  key_not_string, key_format, key_type_required, key_type_not_string, invalid_key_type,
  mnemonic_required, mnemonic_not_string, mnemonic_length, address_required, address_not_string,
  address_format, address_length, ValidationOptions, Outcome, fail, accept, as_string,
  require_string, is_base58, is_base58_text, bad_length, burn_address, key_types, is_one_of,
  valid_lengths, split_spaces, validate_contract_id, validate_base58_address, validate_base58_key,
  validate_key_type, validate_mnemonic, is_valid_address,
}

-- A validator decides a property: it accepts with a value that has it, or fails, as the options say,
-- where no value has it.
abbrev pub Decides : {X T : Type 0} → ValidationOptions X → Outcome X T → (T → Type 0) → Type 0
Decides {T = T} options outcome Good =
    ((v : T) × Good v × (outcome ≡ accept options v))
    ⊎ ((e : ValidationError) × ((v : T) → Good v → ⊥) × (outcome ≡ fail options e))

-- The same for a value that has to be a text, not empty.
abbrev pub OfText : {D T : Type 0} → Value D → (Text → T → Type 0) → T → Type 0
OfText value Good v = (s : Text) × (value ≡ string s) × (s ≢ []) × Good s v

-- 20 to 50 characters, all of the Base58 alphabet.
abbrev pub AddressText : Text → Type 0
AddressText s = (is_base58_text s ≡ true) × (20 ≤ length s) × (length s ≤ 50)

-- One test behind the two checks.
one_test :
    {X T : Type 0} (options : ValidationOptions X) (test : Text → Bool) (e : Text → ValidationError)
    (result : Text → T) (s : Text)
    → Decides options
        (if not (test s) then fail options (e s) else accept options (result s))
        (λ v. (v ≡ result s) × (test s ≡ true))
one_test options test e result s = elim (Bool-cases (test s)) [
  | inl passed ↦ inl (result s, (refl, passed), rw passed refl)
  | inr failed ↦ inr (e s, (λ v (_, passed). cc (passed, failed)), rw failed refl)
]

module _ {D X T : Type 0} (options : ValidationOptions X) (required not_string : ValidationError)
    (check : Text → Outcome X T) (Good : Text → T → Type 0) where
  not_text :
      (value : Value D)
      → as_string value ≡ none
      → Decides options (require_string options required not_string check value) (OfText value Good)
  unfolding require_string
  not_text value e = elim (Bool-cases (truthy value)) [
    | inl given ↦ inr (not_string, (λ v (s, is, _, _). cc (e, ap as_string is)), rw (given, e) refl)
    | inr missing ↦ inr (required, (λ v (s, is, _, _). cc (e, ap as_string is)), rw missing refl)
  ]

  require_string-Decides :
      ((s : Text) → s ≢ [] → Decides options (check s) (Good s))
      → (value : Value D)
      → Decides options (require_string options required not_string check value) (OfText value Good)
  unfolding require_string truthy
  require_string-Decides decides (string []) =
      inr (required, (λ v (s, is, nonempty, _). absurd (nonempty (cc is))), refl)
  require_string-Decides decides (string (c ∷ s)) = elim (decides (c ∷ s) (λ e. cc e)) [
    | inl (v, good, accepted) ↦ inl (v, (c ∷ s, refl, (λ e. cc e), good), accepted)
    | inr (e, bad, failed) ↦
        inr (e, (λ v (t, is, _, good). bad v (subst (λ x. Good x v) (cc is) good)), failed)
  ]
  require_string-Decides decides undefined = not_text undefined refl
  require_string-Decides decides null = not_text null refl
  require_string-Decides decides (boolean b) = not_text (boolean b) refl
  require_string-Decides decides (number t) = not_text (number t) refl
  require_string-Decides decides (bigint n) = not_text (bigint n) refl
  require_string-Decides decides (array vs) = not_text (array vs) refl
  require_string-Decides decides (decimal d) = not_text (decimal d) refl
  require_string-Decides decides object = not_text object refl

module _ {D X : Type 0} (options : ValidationOptions X) (value : Value D) where
  -- A contract identifier is accepted, unchanged, exactly if the network accepts it.
  validate_contract_id-Decides :
      (p : Primitives)
      → Decides options
          (validate_contract_id options p value)
          (OfText value (λ s v. (v ≡ s) × (is_mint_id_text p s ≡ true)))
  unfolding validate_contract_id
  validate_contract_id-Decides p =
      require_string-Decides options contract_id_required contract_id_not_string _
        (λ s v. (v ≡ s) × (is_mint_id_text p s ≡ true))
        (λ s nonempty. one_test options (is_mint_id_text p) (λ s. invalid_mint_id) (λ s. s) s) value

  -- A key is accepted, unchanged, exactly if all its characters are of the Base58 alphabet.
  pub validate_base58_key-Decides :
      Decides options
        (validate_base58_key options value)
        (OfText value (λ s v. (v ≡ s) × (is_base58_text s ≡ true)))
  unfolding validate_base58_key
  validate_base58_key-Decides =
      require_string-Decides options key_required key_not_string _
        (λ s v. (v ≡ s) × (is_base58_text s ≡ true))
        (λ s nonempty. one_test options is_base58_text (λ s. key_format) (λ s. s) s) value

  -- A key type is accepted exactly if it is `ed25519` or `ed448` in lower case, which is returned.
  pub validate_key_type-Decides :
      (to_lower_case : Text → Text)
      → Decides options (validate_key_type options to_lower_case value) (
          OfText value
            (λ s v. (v ≡ to_lower_case s) × (is_one_of key_types (to_lower_case s) ≡ true)))
  unfolding validate_key_type
  validate_key_type-Decides to_lower_case =
      require_string-Decides options key_type_required key_type_not_string _
        (λ s v. (v ≡ to_lower_case s) × (is_one_of key_types (to_lower_case s) ≡ true))
        (λ s nonempty.
          one_test options (λ s. is_one_of key_types (to_lower_case s)) (λ s. invalid_key_type)
            to_lower_case s)
        value

  -- A mnemonic is accepted exactly if, with the white space around it stripped, its number of pieces
  -- between runs of white space is 12, 15, 18, 21 or 24; the stripped text is returned.
  pub validate_mnemonic-Decides : Decides options (validate_mnemonic options value) (
      OfText value (λ s v.
        (v ≡ trim s) × (any (λ n. n == length (split_spaces (trim s))) valid_lengths ≡ true)))
  unfolding validate_mnemonic
  validate_mnemonic-Decides =
      require_string-Decides options mnemonic_required mnemonic_not_string _
        (λ s v.
          (v ≡ trim s) × (any (λ n. n == length (split_spaces (trim s))) valid_lengths ≡ true))
        (λ s nonempty.
          one_test options (λ s. any (λ n. n == length (split_spaces (trim s))) valid_lengths)
            (λ s. mnemonic_length (length (split_spaces (trim s)))) trim s)
        value

  address_check :
      (s : Text)
      → Decides options
          (if not (is_base58_text s)
            then fail options address_format
            else if bad_length s
            then fail options (address_length (length s))
            else accept options s)
          (λ v. (v ≡ s) × AddressText s)
  address_check s = elim (Bool-cases (is_base58_text s)) [
    | inr failed ↦
        inr (address_format, (λ v (_, (passed, _, _)). cc (passed, failed)), rw failed refl)
    | inl passed ↦ elim (Bool-cases (bad_length s)) [
      | inl bad ↦ inr (
        address_length (length s),
        (λ v (_, (_, low, high)). absurd (ground arith)),
        rw (passed, bad) refl,
      )
      | inr good ↦ inl (s, (refl, (passed, ground arith, ground arith)), rw (passed, good) refl)
    ]
  ]

  -- An address is accepted, unchanged, exactly if it has 20 to 50 characters, all of the Base58
  -- alphabet.
  validate_base58_address-Decides :
      Decides options
        (validate_base58_address options value)
        (OfText value (λ s v. (v ≡ s) × AddressText s))
  unfolding validate_base58_address
  validate_base58_address-Decides =
      require_string-Decides options address_required address_not_string _
        (λ s v. (v ≡ s) × AddressText s) (λ s nonempty. address_check s) value

pub accept-fail :
    {X T : Type 0} (options : ValidationOptions X) (v : T) (e : ValidationError)
    → accept options v ≢ fail options e
accept-fail options v e same = elim (Bool-cases options.throw_on_error) [
  | inl throws ↦ cc (rw throws at same)
  | inr returns ↦ cc (rw returns at same)
]

-- A decided property holds of a value that is accepted.
pub accepted-Good :
    {X T : Type 0} (options : ValidationOptions X) (outcome : Outcome X T) (Good : T → Type 0)
    (v : T)
    → Decides options outcome Good
    → outcome ≡ accept options v
    → Good v
accepted-Good options outcome Good v (inl (w, good, accepted)) h =
    subst Good (cc (accepted, h)) good
accepted-Good options outcome Good v (inr (e, bad, failed)) h =
    absurd (accept-fail options v e (sym h ∙ failed))

pub Good-accepted :
    {X T : Type 0} (options : ValidationOptions X) (outcome : Outcome X T) (Good : T → Type 0)
    (v : T)
    → Decides options outcome Good
    → ((w : T) → Good w → w ≡ v)
    → Good v
    → outcome ≡ accept options v
Good-accepted options outcome Good v (inl (w, good, accepted)) unique h =
    accepted ∙ ap (accept options) (unique w good)
Good-accepted options outcome Good v (inr (e, bad, failed)) unique h = absurd (bad v h)

abbrev pub text_value : (D : Type 0) → Text → Value D
text_value D s = string s

burn_passes : (D : Type 0) → is_valid_address (text_value D burn_address) ≡ true
unfolding is_valid_address truthy is_base58
burn_passes D = refl

quick_to :
    (D : Type 0) (s : Text)
    → is_valid_address (text_value D s) ≡ true
    → (s ≡ burn_address) ⊎ AddressText s
unfolding is_valid_address truthy
quick_to D [] h = cc h
quick_to D (c ∷ s) h = elim (Bool-cases (is_base58_text (c ∷ s))) [
  | inr failed ↦ cc (rw failed at h)
  | inl passed ↦ elim (Bool-cases (bad_length (c ∷ s))) [
    | inl bad ↦ inl ((text_eq_iff (c ∷ s) burn_address).0 (rw (passed, bad) at h))
    | inr good ↦ inr (passed, ground arith, ground arith)
  ]
]

quick_from : (D : Type 0) (s : Text) → AddressText s → is_valid_address (text_value D s) ≡ true
unfolding is_valid_address truthy
quick_from D [] (h, _, _) = cc h
quick_from D (c ∷ s) (passed, low, high) =
    let good : bad_length (c ∷ s) ≡ false = ground arith in rw (passed, good) refl

base58-nonempty : (s : Text) → is_base58_text s ≡ true → s ≢ []
base58-nonempty [] h e = cc h
base58-nonempty (c ∷ s) h e = cc e

-- The quick test of an address and the validator agree on all texts but the burn address, which only
-- the quick test takes.
is_valid_address-validate_base58_address :
    {X : Type 0} (D : Type 0) (options : ValidationOptions X) (s : Text)
    → (is_valid_address (text_value D s) ≡ true)
      ↔ ((s ≡ burn_address) ⊎ (validate_base58_address options (text_value D s) ≡ accept options s))
is_valid_address-validate_base58_address D options s = (to, from)
  where
    Good : Text → Type 0
    Good = OfText (text_value D s) (λ t v. (v ≡ t) × AddressText t)

    unique : (w : Text) → Good w → w ≡ s
    unique w (t, is, _, (same, _)) = cc (is, same)

    decides : Decides options (validate_base58_address options (text_value D s)) Good
    decides = validate_base58_address-Decides options (text_value D s)

    to :
        is_valid_address (text_value D s) ≡ true
        → (s ≡ burn_address) ⊎ (validate_base58_address options (text_value D s) ≡ accept options s)
    to h = elim (quick_to D s h) [
      | inl burn ↦ inl burn
      | inr good ↦ inr (
          Good-accepted options _ Good s decides unique
            (s, refl, base58-nonempty s good.0, (refl, good)))
    ]

    from :
        (s ≡ burn_address) ⊎ (validate_base58_address options (text_value D s) ≡ accept options s)
        → is_valid_address (text_value D s) ≡ true
    from (inl burn) = rw burn (burn_passes D)
    from (inr accepted) =
        let (t, is, nonempty, (same, good)) = accepted-Good options _ Good s decides accepted in
        quick_from D s (subst AddressText (sym same) good)
