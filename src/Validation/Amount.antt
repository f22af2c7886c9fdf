-- ===== src/Validation/Amount.antt =====
-- src/shared/utils/validation.ts: `validateAmount`. The decimal package is a parameter.
use mathlib.Core.Path.{subst}
use kalvora_js.Common.{
  suc, ◌≡◌, ◌↔◌, inl, inr, refl, sym, ap, Bool, true, false, not, ◌&&◌, Option, none, some, [], ◌∷◌,
  err, ◌==◌, if◌then◌else◌, all, Text, codes, text_eq, Bool-cases, Option-cases,
}
use kalvora_js.Common.Int.{ℤ, pos, negsuc}
use kalvora_js.Js.Numerals.{to_string}
use kalvora_js.Js.Value.{
  Value, undefined, null, boolean, number, bigint, string, array, decimal, object,
}
use kalvora_js.ContractId.{is_digit}
use kalvora_js.Validation.{
  ValidationError, amount_required, invalid_amount, amount_zero, amount_negative, below_minimum,
  above_maximum, unreadable_bound, ValidationOptions, Outcome, fail, accept,
}
use kalvora_js.Validation.Texts.{accept-fail}

pub record Decimals (D : Type 0) : Type 0 where
  -- `new Decimal(text)`; `none` where it throws.
  pub of_text : Text → Option D
  pub is_zero : D → Bool
  pub is_negative : D → Bool
  pub lt : D → D → Bool
  pub gt : D → D → Bool

-- The two bounds, as the texts that their `toString` gives.
pub record AmountOptions (X : Type 0) : Type 0 where
  pub base : ValidationOptions X
  pub min_amount : Option Text
  pub max_amount : Option Text
  pub allow_zero : Bool

abbrev int_text : ℤ → Text
int_text (pos n) = to_string n
int_text (negsuc n) = b'-' ∷ to_string (suc n)

unfoldable pub take_digits : Text → Text
take_digits [] = []
take_digits (c ∷ s) = let rest = take_digits s in if is_digit c then c ∷ rest else []

unfoldable pub drop_digits : Text → Text
drop_digits [] = []
drop_digits (c ∷ s) = let rest = drop_digits s in if is_digit c then rest else c ∷ s

abbrev is_digits : Text → Bool
is_digits [] = false
is_digits (c ∷ s) = all is_digit (c ∷ s)

-- `(\.\d+)?$`
abbrev fraction : Text → Bool
fraction [] = true
fraction (c ∷ s) = c == b'.' && is_digits s

abbrev unsigned : Text → Bool
unsigned s = is_digits (take_digits s) && fraction (drop_digits s)

-- `/^-?\d+(\.\d+)?$/`
unfoldable pub is_number_text : Text → Bool
is_number_text [] = false
is_number_text (c ∷ s) = if c == b'-' then unsigned s else unsigned (c ∷ s)

module _ {D : Type 0} (decimals : Decimals D) where
  open decimals use {of_text, is_zero, is_negative, lt, gt}

  abbrev is_missing : Value D → Bool
  is_missing undefined = true
  is_missing null = true
  is_missing (string s) = text_eq s []
  is_missing _ = false

  -- The `try` block; `none` where it throws.
  unfoldable pub parse_amount : Value D → Option D
  parse_amount (decimal d) = some d
  parse_amount (string s) = if not (is_number_text s) then none else of_text s
  parse_amount (number t) = of_text t
  parse_amount (bigint n) = of_text (int_text n)
  parse_amount _ = none

  module _ {X : Type 0} (options : AmountOptions X) where
    -- The rest of the function behind a bound: an unreadable bound throws whatever the options say.
    unfoldable pub with_bound :
        {T : Type 0} → Option Text → (D → Bool) → ValidationError → Outcome X T → Outcome X T
    with_bound none outside e rest = rest
    with_bound (some text) outside e rest = elim (of_text text) [
      | none ↦ err unreadable_bound
      | some bound ↦ if outside bound then fail options.base e else rest
    ]

    unfoldable pub check_amount : Value D → D → Outcome X (Value D)
    check_amount amount d =
        if is_zero d && not options.allow_zero
        then fail options.base amount_zero
        else if is_negative d
        then fail options.base amount_negative
        else with_bound options.min_amount (lt d) below_minimum
            (with_bound options.max_amount (gt d) above_maximum (accept options.base amount))

    unfoldable pub validate_amount : Value D → Outcome X (Value D)
    validate_amount amount =
        if is_missing amount
        then fail options.base amount_required
        else elim (parse_amount amount) [
          | none ↦ fail options.base invalid_amount
          | some d ↦ check_amount amount d
        ]

    -- There is no bound, or it can be read and the amount is not outside of it.
    abbrev pub Within : Option Text → (D → Bool) → Type 0
    Within none outside = Unit
    Within (some text) outside = (bound : D) × (of_text text ≡ some bound) × (outside bound ≡ false)

    same_bound : (text : Text) (a b : D) → of_text text ≡ some a → of_text text ≡ some b → a ≡ b
    same_bound text a b ha hb = cc (ha, hb)

    with_bound_iff :
        {T : Type 0} (limit : Option Text) (outside : D → Bool) (e : ValidationError)
        (rest : Outcome X T) (v : T)
        → (with_bound limit outside e rest ≡ accept options.base v)
          ↔ (Within limit outside × (rest ≡ accept options.base v))
    unfolding with_bound
    with_bound_iff none outside e rest v = (λ h. (tt, h), λ (_, h). h)
    with_bound_iff (some text) outside e rest v = elim (Option-cases (of_text text)) [
      | inl unread ↦
          (λ h. cc (rw (unread, with_bound) at h), λ ((bound, read, _), h). cc (unread, read))
      | inr (bound, read) ↦ elim (Bool-cases (outside bound)) [
        | inl beyond ↦ (
          λ h. absurd (accept-fail options.base v e (sym (rw (read, with_bound, beyond) at h))),
          λ ((other, read', inside), h).
              cc (beyond, ap outside (same_bound text bound other read read'), inside),
        )
        | inr inside ↦ (
          λ h. ((bound, read, inside), rw (read, with_bound, inside) at h),
          λ (_, h). rw (read, with_bound, inside) h,
        )
      ]
    ]

    -- What is asked of an amount that was read.
    abbrev pub Allowed : D → Type 0
    Allowed d =
        ((is_zero d && not options.allow_zero) ≡ false)
        × (is_negative d ≡ false)
        × Within options.min_amount (lt d)
        × Within options.max_amount (gt d)

    check_amount_iff :
        (amount : Value D) (d : D)
        → (check_amount amount d ≡ accept options.base amount) ↔ Allowed d
    unfolding check_amount
    check_amount_iff amount d = elim (Bool-cases (is_zero d && not options.allow_zero)) [
      | inl zero_ ↦ (
        λ h.
            absurd
              (accept-fail options.base amount amount_zero (sym (rw (zero_, check_amount) at h))),
        λ (some_, _, _, _). cc (zero_, some_),
      )
      | inr some_ ↦ elim (Bool-cases (is_negative d)) [
        | inl below ↦ (
          λ h.
              absurd
                (accept-fail options.base amount amount_negative (sym (rw (some_, below) at h))),
          λ (_, above, _, _). cc (below, above),
        )
        | inr above ↦
            let outer =
              with_bound_iff options.min_amount (lt d) below_minimum
                (with_bound options.max_amount (gt d) above_maximum (accept options.base amount))
                amount in
            let inner =
              with_bound_iff options.max_amount (gt d) above_maximum (accept options.base amount)
                amount in
            (
              λ h.
                  let (min, rest) = outer.0 (rw (some_, above) at h) in
                  let (max, _) = inner.0 rest in (some_, above, min, max),
              λ (_, _, min, max). rw (some_, above) (outer.1 (min, inner.1 (max, refl))),
            )
      ]
    ]

    missing-parse_amount :
        (amount : Value D) → is_missing amount ≡ true → parse_amount amount ≡ none
    unfolding parse_amount is_number_text
    missing-parse_amount undefined h = refl
    missing-parse_amount null h = refl
    missing-parse_amount (string []) h = refl
    missing-parse_amount (string (c ∷ s)) h = cc h
    missing-parse_amount (boolean b) h = refl
    missing-parse_amount (number t) h = cc h
    missing-parse_amount (bigint n) h = cc h
    missing-parse_amount (array vs) h = refl
    missing-parse_amount (decimal d) h = cc h
    missing-parse_amount object h = refl

    -- An amount is accepted, unchanged, exactly if it can be read as a decimal that is not negative,
    -- is zero only where that is allowed, and is not below the minimum nor above the maximum that
    -- the options set.
    pub validate_amount_iff :
        (amount : Value D)
        → (validate_amount amount ≡ accept options.base amount)
          ↔ ((d : D) × (parse_amount amount ≡ some d) × Allowed d)
    unfolding validate_amount
    validate_amount_iff amount = elim (Bool-cases (is_missing amount)) [
      | inl missing ↦ (
        λ h. absurd (
            accept-fail options.base amount amount_required
              (sym (rw (missing, validate_amount) at h))),
        λ (d, read, _). cc (missing-parse_amount amount missing, read),
      )
      | inr given ↦ elim (Option-cases (parse_amount amount)) [
        | inl unread ↦ (
          λ h. absurd (
              accept-fail options.base amount invalid_amount
                (sym (rw (given, validate_amount, unread) at h))),
          λ (d, read, _). cc (unread, read),
        )
        | inr (d, read) ↦ (
          λ h. (d, read, (check_amount_iff amount d).0 (rw (given, validate_amount, read) at h)),
          λ (e, read', allowed).
              rw (given, validate_amount, read)
                ((check_amount_iff amount d).1 (subst Allowed (cc (read, read')) allowed)),
        )
      ]
    ]

    abbrev pub Readable : Option Text → Type 0
    Readable none = Unit
    Readable (some text) = (bound : D) × (of_text text ≡ some bound)

    any-Within :
        (limit : Option Text) (outside : D → Bool)
        → ((x : D) → outside x ≡ false)
        → Readable limit
        → Within limit outside
    any-Within none outside h read = tt
    any-Within (some text) outside h (bound, read) = (bound, read, h bound)

    -- The number NaN is accepted as an amount, whatever the bounds, with a decimal package in which
    -- NaN is not zero, not negative and not less or greater than anything.
    pub validate_amount-NaN :
        (nan : D)
        → of_text (codes "NaN") ≡ some nan
        → is_zero nan ≡ false
        → is_negative nan ≡ false
        → ((x : D) → lt nan x ≡ false)
        → ((x : D) → gt nan x ≡ false)
        → Readable options.min_amount
        → Readable options.max_amount
        → validate_amount (number (codes "NaN")) ≡ accept options.base (number (codes "NaN"))
    unfolding parse_amount
    validate_amount-NaN nan read nonzero positive not_less not_greater min max =
        (validate_amount_iff (number (codes "NaN"))).1 (
          nan,
          read,
          (
            rw nonzero refl,
            positive,
            any-Within options.min_amount (lt nan) not_less min,
            any-Within options.max_amount (gt nan) not_greater max,
          ),
        )
