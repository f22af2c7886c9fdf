-- ===== src/Validation/Multiple.antt =====
-- src/shared/utils/validation.ts: `validateMultiple`.
use mathlib.Core.Path.{ap₂}
use mathlib.Core.List.{append_assoc, append-nil}
use kalvora_js.Common.{
  ℕ, ◌+◌, ◌≡◌, ◌≢◌, ◌⊎◌, inl, inr, refl, sym, ap, ◌∙◌, Option, none, some, List, [], ◌∷◌, ◌++◌, ok,
  err, if◌then◌else◌, Option-cases,
}
use kalvora_js.Validation.{multiple, ValidationOptions, Outcome, fail, accept}

-- What one validation of several gives: the value of a valid result.
unfoldable pub valued : {X T : Type 0} → Outcome X T → Option (Option T)
valued (ok r) = if r.is_valid then some r.value else none
valued (err e) = none

-- The loop of `validateMultiple`, with the values and the failed indexes so far.
unfoldable pub multiple_loop :
    {X T : Type 0} → ℕ → List (Option T) → List ℕ → List (Outcome X T) → List (Option T) × List ℕ
multiple_loop index results errors [] = (results, errors)
multiple_loop index results errors (o ∷ os) = elim (valued o) [
  | some v ↦ multiple_loop (index + 1) (results ++ (v ∷ [])) errors os
  | none ↦ multiple_loop (index + 1) results (errors ++ (index ∷ [])) os
]

abbrev report :
    {X T : Type 0} → ValidationOptions X → List (Option T) × List ℕ → Outcome X (List (Option T))
report options (results, []) = accept options results
report options (results, e ∷ errors) = fail options (multiple (e ∷ errors))

-- On what each validation returned or threw.
unfoldable pub validate_multiple :
    {X Y T : Type 0} → ValidationOptions X → List (Outcome Y T) → Outcome X (List (Option T))
validate_multiple options outcomes = report options (multiple_loop 0 [] [] outcomes)

-- The indexes of the validations that are not valid, and the values of those that are, in order.
unfoldable pub failing : {X T : Type 0} → ℕ → List (Outcome X T) → List ℕ
failing index [] = []
failing index (o ∷ os) =
    let rest = failing (index + 1) os in elim (valued o) [ some v ↦ rest | none ↦ index ∷ rest ]

unfoldable pub values_of : {X T : Type 0} → List (Outcome X T) → List (Option T)
values_of [] = []
values_of (o ∷ os) = let rest = values_of os in elim (valued o) [ some v ↦ v ∷ rest | none ↦ rest ]

multiple_loop_lem :
    {X T : Type 0} (index : ℕ) (results : List (Option T)) (errors : List ℕ)
    (os : List (Outcome X T))
    → multiple_loop index results errors os ≡ (results ++ values_of os, errors ++ failing index os)
unfolding multiple_loop failing values_of
multiple_loop_lem index results errors [] =
    ap₂ (λ x y. (x, y)) (sym (append-nil results)) (sym (append-nil errors))
multiple_loop_lem index results errors (o ∷ os) = elim (Option-cases (valued o)) [
  | inl failed ↦
      rw (failed, multiple_loop, failing, values_of)
        (multiple_loop_lem (index + 1) results (errors ++ (index ∷ [])) os
          ∙ ap (λ e. (results ++ values_of os, e))
              (append_assoc errors (index ∷ []) (failing (index + 1) os)))
  | inr (v, valid) ↦
      rw (valid, multiple_loop, failing, values_of)
        (multiple_loop_lem (index + 1) (results ++ (v ∷ [])) errors os
          ∙ ap (λ r. (r, errors ++ failing (index + 1) os))
              (append_assoc results (v ∷ []) (values_of os)))
]

-- Several validations succeed together with all values in order if none of them fails or throws, and
-- otherwise fail together with the indexes of those that did, in order.
validate_multiple-failing :
    {X Y T : Type 0} (options : ValidationOptions X) (outcomes : List (Outcome Y T))
    → ((failing 0 outcomes ≡ [])
        × (validate_multiple options outcomes ≡ accept options (values_of outcomes)))
      ⊎ ((failing 0 outcomes ≢ [])
          × (validate_multiple options outcomes ≡ fail options (multiple (failing 0 outcomes))))
unfolding validate_multiple
validate_multiple-failing options outcomes = go (failing 0 outcomes) refl
  where
    whole : multiple_loop 0 [] [] outcomes ≡ (values_of outcomes, failing 0 outcomes)
    whole = multiple_loop_lem 0 [] [] outcomes

    go :
        (errors : List ℕ)
        → failing 0 outcomes ≡ errors
        → ((failing 0 outcomes ≡ [])
            × (validate_multiple options outcomes ≡ accept options (values_of outcomes)))
          ⊎ ((failing 0 outcomes ≢ [])
              × (validate_multiple options outcomes ≡ fail options (multiple (failing 0 outcomes))))
    go [] e = inl (e, rw (whole, e) refl)
    go (x ∷ errors) e = inr ((λ h. cc (e, h)), rw (whole, e) refl)
