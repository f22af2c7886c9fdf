-- ===== src/Validation/Examples.antt =====
-- src/shared/utils/validation.ts: the theorems at concrete inputs.
use kalvora_js.Common.{ℕ, ◌≡◌, ◌↔◌, refl, false, none, some, List, [], ◌∷◌, err, Text, codes}
use kalvora_js.Js.{trim, trim_start, is_space}
use kalvora_js.Js.Value.{Value, nil, cons, number, string, array}
use kalvora_js.Validation.{ValidationOptions, Outcome, accept, key_required}
use kalvora_js.Validation.Words.{IsPhrase, joined}
use kalvora_js.Validation.Amount.{
  Decimals, AmountOptions, parse_amount, validate_amount, Allowed, validate_amount_iff,
  validate_amount-NaN,
}

abbrev options : ValidationOptions ℕ
options = record { throw_on_error = false; details = none }

abbrev text : Text → Value ℕ
text s = string s

-- Three words.
abbrev phrase : List (Text × Text)
phrase = (codes "  ", codes "b") ∷ (codes " ", codes "c") ∷ []

stripped : trim (codes " a  b c ") ≡ joined (codes "a") phrase
unfolding trim trim_start is_space joined
stripped = refl

words : IsPhrase (codes "a") phrase
unfolding is_space
words = (
  ((λ e. cc e), (refl, tt)),
  ((λ e. cc e), (refl, (refl, tt))),
  (((λ e. cc e), (refl, tt)), ((λ e. cc e), (refl, tt)), ((λ e. cc e), (refl, tt))),
)

abbrev hashes : Value ℕ
hashes = array (cons (string (codes "blake3")) nil)

abbrev outcomes : List (Outcome ℕ ℕ)
outcomes = accept options 4 ∷ err key_required ∷ accept options 5 ∷ []

-- Decimals that are read as one number each, for which all tests fail, as they do for NaN.
abbrev constant : Decimals ℕ
constant = record {
  of_text = λ t. some 0;
  is_zero = λ d. false;
  is_negative = λ d. false;
  lt = λ a b. false;
  gt = λ a b. false;
}

abbrev bounded : AmountOptions ℕ
bounded = record {
  base = options;
  min_amount = some (codes "1");
  max_amount = some (codes "9");
  allow_zero = false;
}

validate_amount_iff_example :
    (validate_amount constant bounded (number (codes "5")) ≡ accept options (number (codes "5")))
    ↔ ((d : ℕ) × (parse_amount constant (number (codes "5")) ≡ some d) × Allowed constant bounded d)
validate_amount_iff_example = validate_amount_iff constant bounded (number (codes "5"))

validate_amount-NaN_example :
    validate_amount constant bounded (number (codes "NaN")) ≡ accept options (number (codes "NaN"))
validate_amount-NaN_example =
    validate_amount-NaN constant bounded 0 refl refl refl (λ x. refl) (λ x. refl) (0, refl)
      (0, refl)
