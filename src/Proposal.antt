-- ===== src/Proposal.antt =====
-- src/proposal/shape.ts and the checks of src/proposal/governance.ts: what a governance proposal may
-- hold, the surcharge for a pre-governance stage, and the adaptive window.
pub mod Shape
pub mod Accepts
pub mod Stage
mod Examples
use kalvora_js.Common.{
  ℕ, zero, suc, ◌+◌, ◌-◌, ◌/◌, ◌<◌, Bool, true, false, not, ◌&&◌, ◌||◌, Option, none, some, List,
  [], ◌∷◌, Result, ok, err, ◌>>=◌, ◌>>◌, throw_if, ltb, leb, ◌==◌, if◌then◌else◌, length, any, Text,
  codes, text_eq,
}
use kalvora_js.Common.Int.{ℤ, pos, negsuc, ◌+ℤ◌, ltb_ℤ}
use kalvora_js.Js.{trim, includes}
use kalvora_js.Js.Numerals.{parse_bigint}

pub data ShapeError : Type 0 where
  options_and_txn multi_not_allowed txns_require_options first_not_against : ShapeError
  not_canonical duplicate_option forbidden_word : ℕ → ShapeError
  bad_index : ShapeError
  duplicate_index : ℤ → ShapeError

pub data StageError : Type 0 where
  bad_stage_count syntax : StageError

abbrev pub forbidden_option_words : List Text
forbidden_option_words =
    codes "against"
    ∷ codes "fail"
    ∷ codes "no"
    ∷ codes "reject"
    ∷ codes "oppose"
    ∷ codes "negative"
    ∷ codes "decline"
    ∷ codes "deny"
    ∷ codes "veto"
    ∷ codes "refuse"
    ∷ codes "nay"
    ∷ codes "cancel"
    ∷ codes "abort"
    ∷ codes "stop"
    ∷ codes "block"
    ∷ codes "disapprove"
    ∷ codes "dissent"
    ∷ codes "nothing"
    ∷ []

-- `proposalAdditionalStageDivisor`, for an integral count.
unfoldable pub stage_divisor : ℤ → Bool → Result StageError ℕ
stage_divisor count false = ok 0
stage_divisor (negsuc n) true = err bad_stage_count
stage_divisor (pos n) true = ok (if ltb 0 n then n + 1 else 2)

-- Division of a `bigint`, which rounds towards zero.
abbrev pub div_trunc : ℤ → ℕ → ℤ
div_trunc (pos n) d = pos (n / d)
div_trunc (negsuc n) d = elim (suc n / d) [ zero ↦ pos 0 | suc q ↦ negsuc q ]

-- `applyProposalStageFee`; the result is the number that the returned text prints.
unfoldable pub apply_stage_fee : Text → ℤ → Bool → Result StageError ℤ
unfolding stage_divisor
apply_stage_fee fee_parts count has_pre_governance = do
  divisor ← stage_divisor count has_pre_governance
  elim (parse_bigint fee_parts) [
    | none ↦ err syntax
    | some fee ↦
        if divisor == 0 then ok fee else ok (fee +ℤ div_trunc (fee +ℤ pos (divisor - 1)) divisor)
  ]

-- One entry of `governanceOptionTxns`: the index, and how many transactions it carries.
pub record OptionTxns : Type 0 where
  pub option_index : ℤ
  pub txn_count : ℕ

pub record ShapeInput : Type 0 where
  pub options : Option (List Text)
  pub governance_txn : Option ℕ
  pub option_txns : Option (List OptionTxns)
  pub allow_multi : Option Bool

abbrev pub or_empty {ℓ} : {A : Type ℓ} → Option (List A) → List A
or_empty none = []
or_empty (some xs) = xs

abbrev pub or_zero : Option ℕ → ℕ
or_zero none = 0
or_zero (some n) = n

abbrev is_false : Option Bool → Bool
is_false (some false) = true
is_false _ = false

abbrev has : List Text → Text → Bool
has seen option = any (text_eq option) seen

abbrev index_eq : ℤ → ℤ → Bool
index_eq (pos m) (pos n) = m == n
index_eq (negsuc m) (negsuc n) = m == n
index_eq _ _ = false

abbrev has_index : List ℤ → ℤ → Bool
has_index used i = any (index_eq i) used

-- `toLowerCase` maps by the Unicode tables, which are a parameter.
module _ (to_lower_case : Text → Text) where
  unfoldable pub contains_forbidden_word : Text → Bool
  contains_forbidden_word option =
      let lower = to_lower_case option in any (λ word. includes word lower) forbidden_option_words

  -- One round of the loop over the options; `seen` is the set of those before it.
  unfoldable pub check_option : List Text → ℕ → Text → Result ShapeError (Unit {0})
  check_option seen index option = do
    throw_if (not (text_eq option (trim option)) || length option == 0) (not_canonical index)
    throw_if (has seen option) (duplicate_option index)
    throw_if (ltb 0 index && contains_forbidden_word option) (forbidden_word index)

  unfoldable pub check_options : List Text → ℕ → List Text → Result ShapeError (Unit {0})
  check_options seen index [] = ok tt
  check_options seen index (option ∷ options) = do
    check_option seen index option
    check_options (option ∷ seen) (index + 1) options

-- The loop over the entries; `used` is the set of indexes before it.
unfoldable pub check_entries : ℕ → List ℤ → List OptionTxns → Result ShapeError (Unit {0})
check_entries size used [] = ok tt
check_entries size used (entry ∷ entries) = do
  throw_if (not (ltb_ℤ (pos 0) entry.option_index) || not (ltb_ℤ entry.option_index (pos size)))
      bad_index
  throw_if (has_index used entry.option_index) (duplicate_index entry.option_index)
  check_entries size (entry.option_index ∷ used) entries

abbrev first_is_against : List Text → Bool
first_is_against [] = false
first_is_against (option ∷ options) = text_eq option (codes "against")

module _ (to_lower_case : Text → Text) where
  -- Everything behind the early return for a proposal with no options.
  unfoldable pub check_with_options : List Text → List OptionTxns → Result ShapeError (Unit {0})
  check_with_options options txns = do
    throw_if (not (first_is_against options)) first_not_against
    check_options to_lower_case [] 0 options
    check_entries (length options) [] txns

  unfoldable pub assert_proposal_shape : ShapeInput → Result ShapeError (Unit {0})
  assert_proposal_shape input =
      let options = or_empty input.options in
      let txns = or_empty input.option_txns in
      do
        throw_if (ltb 0 (length options) && ltb 0 (or_zero input.governance_txn)) options_and_txn
        throw_if (is_false input.allow_multi && ltb 0 (length options)) multi_not_allowed
        if length options == 0
            then throw_if (ltb 0 (length txns)) txns_require_options
            else check_with_options options txns

pub data WindowError : Type 0 where
  window_required window_order window_not_allowed : WindowError

-- The governance snapshot, as far as `assertAdaptiveWindow` reads it, and the two times.
pub record Window : Type 0 where
  pub adaptive : Option Bool
  pub start : Option ℤ
  pub end : Option ℤ

abbrev is_set {ℓ} : {A : Type ℓ} → Option A → Bool
is_set none = false
is_set (some a) = true

unfoldable pub check_order : Option ℤ → Option ℤ → Result WindowError (Unit {0})
check_order (some start) (some end) = throw_if (ltb_ℤ end start) window_order
check_order none end = err window_required
check_order (some start) none = err window_required

unfoldable pub assert_adaptive_window : Window → Result WindowError (Unit {0})
unfolding check_order
assert_adaptive_window w = elim w.adaptive [
  | some true ↦ check_order w.start w.end
  | some false ↦ throw_if (is_set w.start || is_set w.end) window_not_allowed
  | none ↦ ok tt
]
