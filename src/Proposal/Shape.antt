-- ===== src/Proposal/Shape.antt =====
-- src/proposal/shape.ts: the shape check accepts exactly the proposals that the rules allow.
use kalvora_js.Common.{
  ℕ, ◌+◌, ◌<◌, ◌≡◌, ◌≢◌, ◌↔◌, ◌⊎◌, inl, inr, refl, sym, ap, Bool, true, false, List, [], ◌∷◌, arith,
  Result, ok, err, ◌>>◌, throw_if, length, any, All, Text, text_eq, text_eq_iff, Bool-cases,
}
use kalvora_js.Common.Int.{ℤ, pos, negsuc}
use kalvora_js.Js.{trim, includes}
use kalvora_js.Proposal.{
  forbidden_option_words, has, index_eq, has_index, contains_forbidden_word, check_option,
  check_options,
}

abbrev pub Distinct {ℓ} : {A : Type ℓ} → List A → Type ℓ
Distinct [] = Unit
Distinct (x ∷ xs) = All (λ y. x ≢ y) xs × Distinct xs

-- An option is not blank and has no white space at its ends.
abbrev pub IsCanonicalText : Text → Type 0
IsCanonicalText o = (o ≡ trim o) × (o ≢ [])

abbrev pub tail {ℓ} : {A : Type ℓ} → List A → List A
tail [] = []
tail (x ∷ xs) = xs

abbrev pub InRange : ℕ → ℤ → Type 0
InRange size (pos n) = (0 < n) × (n < size)
InRange size (negsuc n) = ⊥

abbrev pub Fresh {ℓ} : {A : Type ℓ} → List A → A → Type ℓ
Fresh seen x = All (λ y. x ≢ y) seen

pub All-map {ℓ κ μ} :
    {A : Type ℓ} (P : A → Type κ) (Q : A → Type μ) (xs : List A)
    → ((x : A) → P x → Q x)
    → All P xs
    → All Q xs
All-map P Q [] f h = tt
All-map P Q (x ∷ xs) f (p, h) = (f x p, All-map P Q xs f h)

pub All-zip {ℓ κ μ} :
    {A : Type ℓ} (P : A → Type κ) (Q : A → Type μ) (xs : List A)
    → All P xs
    → All Q xs
    → All (λ x. P x × Q x) xs
All-zip P Q [] h k = tt
All-zip P Q (x ∷ xs) (p, h) (q, k) = ((p, q), All-zip P Q xs h k)

any_step {ℓ} :
    {A : Type ℓ} (eq : A → A → Bool) (iff : (x y : A) → (eq x y ≡ true) ↔ (x ≡ y)) (y : A)
    (xs : List A) (x : A)
    → ((any (eq x) xs ≡ false) ↔ Fresh xs x)
    → (any (eq x) (y ∷ xs) ≡ false) ↔ Fresh (y ∷ xs) x
any_step eq iff y xs x rest = elim (Bool-cases (eq x y)) [
  | inl same ↦ (λ h. cc (h, same), λ h. absurd (h.0 ((iff x y).0 same)))
  | inr other ↦ rw other ((λ h. ((λ e. cc (other, (iff x y).1 e)), rest.0 h)), λ h. rest.1 h.1)
]

-- A membership test by Boolean equality.
any_iff {ℓ} :
    {A : Type ℓ} (eq : A → A → Bool) (iff : (x y : A) → (eq x y ≡ true) ↔ (x ≡ y)) (xs : List A)
    (x : A)
    → (any (eq x) xs ≡ false) ↔ Fresh xs x
any_iff eq iff [] x = (λ _. tt, λ _. refl)
any_iff eq iff (y ∷ xs) x = any_step eq iff y xs x (any_iff eq iff xs x)

has_iff : (seen : List Text) (o : Text) → (has seen o ≡ false) ↔ Fresh seen o
has_iff seen o = any_iff text_eq text_eq_iff seen o

index_eq_iff : (i j : ℤ) → (index_eq i j ≡ true) ↔ (i ≡ j)
index_eq_iff (pos m) (pos n) = ground arith
index_eq_iff (pos m) (negsuc n) = ground arith
index_eq_iff (negsuc m) (pos n) = ground arith
index_eq_iff (negsuc m) (negsuc n) = ground arith

pub has_index_iff : (used : List ℤ) (i : ℤ) → (has_index used i ≡ false) ↔ Fresh used i
has_index_iff used i = any_iff index_eq index_eq_iff used i

pub throw_if_ok {ℓ} : {E : Type ℓ} (b : Bool) (e : E) → (throw_if b e ≡ ok tt) ↔ (b ≡ false)
throw_if_ok b e = ground arith

pub >>-eq-ok {ℓ} :
    {E : Type ℓ} (m : Result E (Unit {0})) (k : Result E (Unit {0}))
    → ((m >> k) ≡ ok tt) ↔ ((m ≡ ok tt) × (k ≡ ok tt))
>>-eq-ok (ok u) k = (λ h. (refl, h), λ h. h.1)
>>-eq-ok (err e) k = (λ h. cc h, λ h. cc h.0)

pub any-false_iff {ℓ} :
    {A : Type ℓ} (p : A → Bool) (xs : List A) → (any p xs ≡ false) ↔ All (λ x. p x ≡ false) xs
any-false_iff p [] = (λ _. tt, λ _. refl)
any-false_iff p (x ∷ xs) =
    let rest = any-false_iff p xs in
    (λ h. (ground arith, rest.0 (ground arith)), λ h. rw h.0 (rest.1 h.1))

pub length-ne-zero : (o : Text) → o ≢ [] → length o ≢ 0
length-ne-zero [] h = absurd (h refl)
length-ne-zero (c ∷ o) h = omega arith

module _ (to_lower_case : Text → Text) where
  -- None of the forbidden words stands in the option, compared in lower case.
  abbrev pub HasNoForbidden : Text → Type 0
  HasNoForbidden o = All (λ w. includes w (to_lower_case o) ≡ false) forbidden_option_words

  pub forbidden_iff :
      (o : Text) → (contains_forbidden_word to_lower_case o ≡ false) ↔ HasNoForbidden o
  unfolding contains_forbidden_word
  forbidden_iff o = any-false_iff (λ w. includes w (to_lower_case o)) forbidden_option_words

  abbrev pub Allowed : Text → Type 0
  Allowed o = contains_forbidden_word to_lower_case o ≡ false

  pub check_option_iff :
      (seen : List Text) (i : ℕ) (o : Text)
      → (check_option to_lower_case seen i o ≡ ok tt)
        ↔ (IsCanonicalText o × Fresh seen o × ((i ≡ 0) ⊎ Allowed o))
  unfolding check_option
  check_option_iff seen i o = (to, from)
    where
      to :
          check_option to_lower_case seen i o ≡ ok tt
          → IsCanonicalText o × Fresh seen o × ((i ≡ 0) ⊎ Allowed o)
      to h = (
        (ground (arith, text_eq_iff o (trim o)), λ e. absurd (ground (arith, ap length e))),
        (has_iff seen o).0 (ground arith),
        ground arith,
      )

      from :
          IsCanonicalText o × Fresh seen o × ((i ≡ 0) ⊎ Allowed o)
          → check_option to_lower_case seen i o ≡ ok tt
      from ((trimmed, nonempty), fresh, allowed) = ground (
        arith,
        (text_eq_iff o (trim o)).1 trimmed,
        (has_iff seen o).1 fresh,
        length-ne-zero o nonempty,
        allowed,
      )

  abbrev pub OptionRules : List Text → Text → Type 0
  OptionRules seen o = IsCanonicalText o × Fresh seen o × Allowed o

  -- Behind option 0 every option meets all the rules.
  pub check_options_iff :
      (seen : List Text) (i : ℕ) (os : List Text)
      → 0 < i
      → (check_options to_lower_case seen i os ≡ ok tt) ↔ (All (OptionRules seen) os × Distinct os)
  unfolding check_options
  check_options_iff seen i [] h = (λ _. (tt, tt), λ _. refl)
  check_options_iff seen i (o ∷ os) h =
      let rest = check_options_iff (o ∷ seen) (i + 1) os (omega arith) in
      let here = check_option_iff seen i o in
      let both =
        >>-eq-ok (check_option to_lower_case seen i o)
          (check_options to_lower_case (o ∷ seen) (i + 1) os) in
      (
        λ e.
            let (e1, e2) = both.0 e in
            let (canonical, fresh, allowed) = here.0 e1 in
            let (rules, distinct) = rest.0 e2 in
            (
              (
                (canonical, fresh, positive i h allowed),
                All-map (OptionRules (o ∷ seen)) (OptionRules seen) os (λ x r. (r.0, r.1.1, r.2))
                    rules,
              ),
              (
                All-map (OptionRules (o ∷ seen)) (λ y. o ≢ y) os (λ x r e. r.1.0 (sym e)) rules,
                distinct,
              ),
            ),
        λ r. both.1 (
          here.1 (r.0.0.0, r.0.0.1, inr r.0.0.2),
          rest.1 (
            All-map _ (OptionRules (o ∷ seen)) os
                (λ x q. (q.0.0, ((λ e. q.1 (sym e)), q.0.1), q.0.2))
                (All-zip (OptionRules seen) (λ y. o ≢ y) os r.0.1 r.1.0),
            r.1.1,
          ),
        ),
      )
    where
      positive : (j : ℕ) → 0 < j → {P : Type 0} → (j ≡ 0) ⊎ P → P
      positive j hj (inl z) = absurd (omega arith)
      positive j hj (inr q) = q
