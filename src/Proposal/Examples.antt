-- ===== src/Proposal/Examples.antt =====
-- src/proposal/shape.ts and src/proposal/governance.ts: the theorems at concrete inputs.
use kalvora_js.Common.{◌≡◌, ◌↔◌, true, none, some, [], ◌∷◌, ok, codes}
use kalvora_js.Common.Int.{pos}
use kalvora_js.Proposal.{ShapeInput, assert_proposal_shape, Window}
use kalvora_js.Proposal.Accepts.{IsAllowed, assert_proposal_shape_iff}

abbrev two_options : ShapeInput
two_options = record {
  options = some (codes "against" ∷ codes "fund" ∷ []);
  governance_txn = none;
  option_txns = some (record { option_index = pos 1; txn_count = 2 } ∷ []);
  allow_multi = some true;
}

assert_proposal_shape_iff_example :
    (assert_proposal_shape (λ t. t) two_options ≡ ok tt) ↔ IsAllowed (λ t. t) two_options
assert_proposal_shape_iff_example = assert_proposal_shape_iff (λ t. t) two_options

abbrev ordered : Window
ordered = record { adaptive = some true; start = some (pos 3); end = some (pos 9) }
