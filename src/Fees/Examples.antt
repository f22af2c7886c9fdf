-- ===== src/Fees/Examples.antt =====
-- src/shared/fee-calculators/universal-fee-calculator.ts: the theorems at concrete inputs.
use kalvora_js.Common.{ℕ, ◌*◌, ◌≤◌, ◌≡◌, refl, none, List, [], ◌∷◌, arith, ok, Text, codes}
use kalvora_js.ContractId.Decimal.{value_from}
use kalvora_js.Fees.{scale, unsigned, positive, sum_outputs, Token, percentage_fee}
use kalvora_js.Fees.Percentage.{IsRounded, percentage_fee-le_amount}

abbrev outputs : List Text
outputs = codes "300" ∷ codes "45" ∷ []

-- Five percent.
abbrev rate : Text
rate = codes "50000000000000000"

abbrev source : Token
source = record { rate = codes "2"; denomination = codes "100" }

abbrev other : Token
other = record { rate = codes "3"; denomination = codes "1000" }

sum_ok : sum_outputs 0 outputs ≡ ok 345
unfolding sum_outputs unsigned value_from
sum_ok = refl

rate_ok : unsigned rate ≡ ok 50_000_000_000_000_000
unfolding unsigned value_from
rate_ok = refl

denomination_ok : positive source.denomination ≡ ok 100
unfolding positive unsigned value_from
denomination_ok = refl

percentage_fee-le_amount_example :
    (charged : ℕ) × (percentage_fee outputs rate source none ≡ ok charged)
    × (charged ≤ 345)
    × IsRounded 345 50_000_000_000_000_000 (345 * 50_000_000_000_000_000) scale charged
percentage_fee-le_amount_example =
    percentage_fee-le_amount outputs rate source 345 50_000_000_000_000_000 100 sum_ok (omega arith)
      rate_ok (omega arith) denomination_ok
