-- ===== src/Proposal/Accepts.antt =====
-- src/proposal/shape.ts: the whole of `assertGovernanceProposalShape` against the rules.
use kalvora_js.Common.{
  ℕ, zero, suc, ◌+◌, ◌≡◌, ◌≢◌, ◌↔◌, ◌⊎◌, inl, inr, refl, sym, ap, Bool, true, false, not, ◌&&◌,
  ◌||◌, Option, none, some, List, [], ◌∷◌, map, arith, Result, ok, ◌>>◌, throw_if, ltb, ◌==◌,
  if◌then◌else◌, length, All, Text, codes, text_eq, text_eq_iff,
}
use kalvora_js.Common.Int.{ℤ, pos, negsuc, ltb_ℤ}
use kalvora_js.Proposal.{
  ShapeError, ShapeInput, OptionTxns, bad_index, options_and_txn, multi_not_allowed,
  txns_require_options, first_not_against, duplicate_index, has_index, or_empty, or_zero, is_false,
  check_option, check_options, check_entries, first_is_against, check_with_options,
  assert_proposal_shape,
}
use kalvora_js.Proposal.Shape.{
  Distinct, IsCanonicalText, tail, InRange, Fresh, All-map, All-zip, has_index_iff, throw_if_ok,
  >>-eq-ok, HasNoForbidden, OptionRules, forbidden_iff, check_option_iff, check_options_iff,
}

abbrev out_of_range : ℕ → ℤ → Bool
out_of_range size i = not (ltb_ℤ (pos 0) i) || not (ltb_ℤ i (pos size))

InRange-iff : (size : ℕ) (i : ℤ) → (out_of_range size i ≡ false) ↔ InRange size i
InRange-iff size (pos n) = ground arith
InRange-iff size (negsuc n) = ground arith

abbrev indexes : List OptionTxns → List ℤ
indexes txns = map (λ e. e.option_index) txns

abbrev IndexRules : ℕ → List ℤ → ℤ → Type 0
IndexRules size used i = InRange size i × Fresh used i

check_entries_iff :
    (size : ℕ) (used : List ℤ) (es : List OptionTxns)
    → (check_entries size used es ≡ ok tt)
      ↔ (All (IndexRules size used) (indexes es) × Distinct (indexes es))
unfolding check_entries
check_entries_iff size used [] = (λ _. (tt, tt), λ _. refl)
check_entries_iff size used (x ∷ es) =
    let i = x.option_index in
    let rest = check_entries_iff size (i ∷ used) es in
    let outer =
      >>-eq-ok (throw_if (out_of_range size i) bad_index)
        (throw_if (has_index used i) (duplicate_index i) >> check_entries size (i ∷ used) es) in
    let inner =
      >>-eq-ok (throw_if (has_index used i) (duplicate_index i))
        (check_entries size (i ∷ used) es) in
    let range = InRange-iff size i in
    let fresh = has_index_iff used i in
    (
      λ h.
          let (h1, h') = outer.0 h in
          let (h2, h3) = inner.0 h' in
          let (rules, distinct) = rest.0 h3 in
          (
            (
              (range.0 ((throw_if_ok _ _).0 h1), fresh.0 ((throw_if_ok _ _).0 h2)),
              All-map (IndexRules size (i ∷ used)) (IndexRules size used) (indexes es)
                  (λ y r. (r.0, r.1.1)) rules,
            ),
            (
              All-map (IndexRules size (i ∷ used)) (λ y. i ≢ y) (indexes es)
                  (λ y r e. r.1.0 (sym e)) rules,
              distinct,
            ),
          ),
      λ r. outer.1 (
        (throw_if_ok _ _).1 (range.1 r.0.0.0),
        inner.1 (
          (throw_if_ok _ _).1 (fresh.1 r.0.0.1),
          rest.1 (
            All-map _ (IndexRules size (i ∷ used)) (indexes es)
                (λ y q. (q.0.0, ((λ e. q.1 (sym e)), q.0.1)))
                (All-zip (IndexRules size used) (λ y. i ≢ y) (indexes es) r.0.1 r.1.0),
            r.1.1,
          ),
        ),
      ),
    )

-- What the rules allow where there are options.
pub record WithOptions (to_lower_case : Text → Text) (options : List Text) (txns : List OptionTxns)
    : Type 0 where
  pub first : (rest : List Text) × (options ≡ codes "against" ∷ rest)
  pub canonical : All IsCanonicalText options
  pub distinct : Distinct options
  pub others_allowed : All (HasNoForbidden to_lower_case) (tail options)
  pub in_range : All (InRange (length options)) (indexes txns)
  pub distinct_indexes : Distinct (indexes txns)

first_iff :
    (options : List Text)
    → (first_is_against options ≡ true) ↔ ((rest : List Text) × (options ≡ codes "against" ∷ rest))
first_iff [] = (λ h. cc h, λ h. cc h.1)
first_iff (o ∷ os) =
    let same = text_eq_iff o (codes "against") in
    (λ h. (os, ap (λ t. t ∷ os) (same.0 h)), λ h. same.1 (cc h.1))

module _ (to_lower_case : Text → Text) where
  -- The rules of `IndexRules` with nothing used before.
  with_none_used : (size : ℕ) (is : List ℤ) → All (InRange size) is → All (IndexRules size []) is
  with_none_used size is h = All-map (InRange size) (IndexRules size []) is (λ i r. (r, tt)) h

  options_to :
      (o : Text) (os : List Text) (txns : List OptionTxns)
      → check_with_options to_lower_case (o ∷ os) txns ≡ ok tt
      → WithOptions to_lower_case (o ∷ os) txns
  unfolding check_with_options check_options
  options_to o os txns h =
      let (h1, h2) =
        (>>-eq-ok (throw_if (not (text_eq o (codes "against"))) first_not_against) _).0 h in
      let (h3, h4) =
        (>>-eq-ok (check_options to_lower_case [] 0 (o ∷ os))
            (check_entries (length (o ∷ os)) [] txns)).0
          h2 in
      let (h5, h6) =
        (>>-eq-ok (check_option to_lower_case [] 0 o)
            (check_options to_lower_case (o ∷ []) (0 + 1) os)).0
          h3 in
      let (canonical, _, _) = (check_option_iff to_lower_case [] 0 o).0 h5 in
      let (rules, distinct) =
        (check_options_iff to_lower_case (o ∷ []) (0 + 1) os (omega arith)).0 h6 in
      let (ranges, apart) = (check_entries_iff (length (o ∷ os)) [] txns).0 h4 in
      let R = OptionRules to_lower_case (o ∷ []) in
      record {
        first = (first_iff (o ∷ os)).0 (ground arith);
        canonical = (canonical, All-map R IsCanonicalText os (λ x r. r.0) rules);
        distinct = (All-map R (λ y. o ≢ y) os (λ x r e. r.1.0 (sym e)) rules, distinct);
        others_allowed =
            All-map R (HasNoForbidden to_lower_case) os
              (λ x r. (forbidden_iff to_lower_case x).0 r.2) rules;
        in_range =
            All-map (IndexRules (length (o ∷ os)) []) (InRange (length (o ∷ os))) (indexes txns)
              (λ i r. r.0) ranges;
        distinct_indexes = apart;
      }

  options_from :
      (o : Text) (os : List Text) (txns : List OptionTxns)
      → WithOptions to_lower_case (o ∷ os) txns
      → check_with_options to_lower_case (o ∷ os) txns ≡ ok tt
  unfolding check_with_options check_options
  options_from o os txns w =
      let first : text_eq o (codes "against") ≡ true = (first_iff (o ∷ os)).1 w.first in
      let R : Text → Type 0 = OptionRules to_lower_case (o ∷ []) in
      let rules : All R os =
        All-map _ R os
          (λ x q. (q.0, ((λ e. q.1.0 (sym e)), tt), (forbidden_iff to_lower_case x).1 q.1.1))
          (All-zip IsCanonicalText _ os w.canonical.1 (
            All-zip (λ y. o ≢ y) (HasNoForbidden to_lower_case) os w.distinct.0
              w.others_allowed)) in
      let start = (check_option_iff to_lower_case [] 0 o).1 (w.canonical.0, tt, inl refl) in
      let others =
        (check_options_iff to_lower_case (o ∷ []) (0 + 1) os (omega arith)).1
          (rules, w.distinct.1) in
      let entries =
        (check_entries_iff (length (o ∷ os)) [] txns).1
          (with_none_used _ (indexes txns) w.in_range, w.distinct_indexes) in
      rw (first, start, others, entries)

-- What a proposal may hold: not both options and top-level transactions; options only where the
-- contract allows them; transactions for options only with options.
pub record IsAllowed (to_lower_case : Text → Text) (input : ShapeInput) : Type 0 where
  pub one_source : (or_empty input.options ≡ []) ⊎ (or_zero input.governance_txn ≡ 0)
  pub multi : (input.allow_multi ≢ some false) ⊎ (or_empty input.options ≡ [])
  pub content :
      ((or_empty input.options ≡ []) × (or_empty input.option_txns ≡ []))
      ⊎ WithOptions to_lower_case (or_empty input.options) (or_empty input.option_txns)

positive_size : (n : ℕ) → (ltb 0 (suc n) ≡ true) × ((suc n == 0) ≡ false)
positive_size n = ground arith

no_txns_iff :
    (txns : List OptionTxns) (e : ShapeError)
    → (throw_if (ltb 0 (length txns)) e ≡ ok tt) ↔ (txns ≡ [])
no_txns_iff [] e = (λ _. refl, λ _. refl)
no_txns_iff (t ∷ txns) e = (λ h. absurd (ground arith), λ h. cc h)

-- `assertGovernanceProposalShape` once the missing fields have their defaults.
abbrev checked :
    (Text → Text) → List Text → ℕ → Option Bool → List OptionTxns → Result ShapeError (Unit {0})
checked to_lower_case options txn multi txns = do
  throw_if (ltb 0 (length options) && ltb 0 txn) options_and_txn
  throw_if (is_false multi && ltb 0 (length options)) multi_not_allowed
  if length options == 0
      then throw_if (ltb 0 (length txns)) txns_require_options
      else check_with_options to_lower_case options txns

abbrev Rules : (Text → Text) → List Text → ℕ → Option Bool → List OptionTxns → Type 0
Rules to_lower_case options txn multi txns =
    ((options ≡ []) ⊎ (txn ≡ 0))
    × ((multi ≢ some false) ⊎ (options ≡ []))
    × (((options ≡ []) × (txns ≡ [])) ⊎ WithOptions to_lower_case options txns)

no_options :
    (to_lower_case : Text → Text) (txn : ℕ) (multi : Option Bool) (txns : List OptionTxns)
    → (throw_if (ltb 0 (length txns)) txns_require_options ≡ ok tt)
      ↔ Rules to_lower_case [] txn multi txns
no_options to_lower_case txn multi txns =
    let iff = no_txns_iff txns txns_require_options in
    (
      λ h. (inl refl, inr refl, inl (refl, iff.0 h)),
      λ r. elim r.2 [ inl e ↦ iff.1 e.1 | inr w ↦ cc w.first.1 ],
    )

some_options :
    (to_lower_case : Text → Text) (o : Text) (os : List Text) (multi : Option Bool)
    (txns : List OptionTxns)
    → multi ≢ some false
    → (check_with_options to_lower_case (o ∷ os) txns ≡ ok tt)
      ↔ Rules to_lower_case (o ∷ os) 0 multi txns
some_options to_lower_case o os multi txns free = (
  λ h. (inr refl, inl free, inr (options_to to_lower_case o os txns h)),
  λ r. elim r.2 [ inl e ↦ cc e.0 | inr w ↦ options_from to_lower_case o os txns w ],
)

shape-Rules :
    (to_lower_case : Text → Text) (options : List Text) (txn : ℕ) (multi : Option Bool)
    (txns : List OptionTxns)
    → (checked to_lower_case options txn multi txns ≡ ok tt)
      ↔ Rules to_lower_case options txn multi txns
shape-Rules to_lower_case [] txn none txns = no_options to_lower_case txn none txns
shape-Rules to_lower_case [] txn (some true) txns = no_options to_lower_case txn (some true) txns
shape-Rules to_lower_case [] txn (some false) txns = no_options to_lower_case txn (some false) txns
shape-Rules to_lower_case (o ∷ os) (suc k) multi txns =
    (λ h. absurd (ground arith), λ r. elim r.0 [ inl e ↦ cc e | inr e ↦ absurd (omega arith) ])
shape-Rules to_lower_case (o ∷ os) zero (some false) txns =
    (λ h. absurd (ground arith), λ r. elim r.1 [ inl h ↦ absurd (h refl) | inr e ↦ cc e ])
shape-Rules to_lower_case (o ∷ os) zero none txns =
    rw ((positive_size (length os)).0, (positive_size (length os)).1)
      (some_options to_lower_case o os none txns (λ e. cc e))
shape-Rules to_lower_case (o ∷ os) zero (some true) txns =
    rw ((positive_size (length os)).0, (positive_size (length os)).1)
      (some_options to_lower_case o os (some true) txns (λ e. cc e))

-- The shape check passes exactly for the proposals that the rules allow. With options these are:
-- option 0 is `against`; options are trimmed, not empty and pairwise distinct; none but the first
-- holds a forbidden word in lower case; the indexes that carry transactions are distinct, positive
-- and below the number of options.
pub assert_proposal_shape_iff :
    (to_lower_case : Text → Text) (input : ShapeInput)
    → (assert_proposal_shape to_lower_case input ≡ ok tt) ↔ IsAllowed to_lower_case input
unfolding assert_proposal_shape
assert_proposal_shape_iff to_lower_case input =
    let rules =
      shape-Rules to_lower_case (or_empty input.options) (or_zero input.governance_txn)
        input.allow_multi (or_empty input.option_txns) in
    (
      λ h.
          let (one_source, multi, content) = rules.0 h in
          record { one_source = one_source; multi = multi; content = content },
      λ a. rules.1 (a.one_source, a.multi, a.content),
    )
