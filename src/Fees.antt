-- ===== src/Fees.antt =====
-- src/shared/fee-calculators/universal-fee-calculator.ts: the percentage fee that a contract takes of
-- a transfer, in whole parts.
pub mod Percentage
mod Examples
use kalvora_js.Common.{
  ℕ, zero, suc, ◌+◌, ◌-◌, ◌*◌, ◌/◌, ◌^◌, Bool, true, false, not, ◌&&◌, ◌||◌, Option, none, some,
  List, [], ◌∷◌, Result, ok, err, ◌>>=◌, ◌>>◌, throw_if, ltb, ◌==◌, if◌then◌else◌, all, Text,
}
use kalvora_js.ContractId.{is_digit}
use kalvora_js.ContractId.Decimal.{value_from}

pub data FeeError : Type 0 where
  not_decimal not_uint256 not_positive total_range no_payment_token fee_range : FeeError

abbrev pub max_uint256 : ℕ
max_uint256 = 2 ^ 256 - 1

abbrev pub scale : ℕ
scale = 1_000_000_000_000_000_000

-- `/^\d+$/u`
abbrev pub is_digits : Text → Bool
is_digits [] = false
is_digits (c ∷ s) = all is_digit (c ∷ s)

-- `BigInt` of a text of digits is the number that they denote.
unfoldable pub unsigned : Text → Result FeeError ℕ
unsigned value = do
  throw_if (not (is_digits value)) not_decimal
  throw_if (ltb max_uint256 (value_from 0 value)) not_uint256
  ok (value_from 0 value)

unfoldable pub positive : Text → Result FeeError ℕ
positive value = do parsed ← unsigned value; throw_if (parsed == 0) not_positive; ok parsed

-- The sum of the outputs; an output that is not a number throws before those behind it are read.
unfoldable pub sum_outputs : ℕ → List Text → Result FeeError ℕ
sum_outputs sum [] = ok sum
sum_outputs sum (output ∷ outputs) = do amount ← unsigned output; sum_outputs (sum + amount) outputs

-- What is read of a token: its rate, and its denomination or the fall-back for it.
pub record Token : Type 0 where
  pub rate : Text
  pub denomination : Text

-- The fraction that is rounded. `payment` is the token that the fee is paid in, if it is another one;
-- it has no information where the inner option is `none`.
unfoldable pub fraction_of : ℕ → ℕ → ℕ → Text → Option (Option Token) → Result FeeError (ℕ × ℕ)
fraction_of amount fraction source_denomination source_rate none = ok (amount * fraction, scale)
fraction_of amount fraction source_denomination source_rate (some none) = err no_payment_token
fraction_of amount fraction source_denomination source_rate (some (some token)) = do
  rate ← positive source_rate
  payment_rate ← positive token.rate
  payment_denomination ← positive token.denomination
  ok (
    amount * fraction * (rate * payment_denomination),
    scale * (source_denomination * payment_rate),
  )

-- Rounded down, but not to nothing where there is something to pay.
unfoldable pub rounded : ℕ → ℕ → ℕ → ℕ → ℕ
rounded amount fraction numerator denominator =
    let fee = numerator / denominator in
    if ltb 0 amount && ltb 0 fraction && fee == 0 then 1 else fee

unfoldable pub percentage_fee : List Text → Text → Token → Option (Option Token) → Result FeeError ℕ
percentage_fee outputs fee source payment = do
  amount ← sum_outputs 0 outputs
  throw_if (ltb max_uint256 amount) total_range
  fraction ← unsigned fee
  source_denomination ← positive source.denomination
  quotient ← fraction_of amount fraction source_denomination source.rate payment
  throw_if (ltb max_uint256 (rounded amount fraction quotient.0 quotient.1)) fee_range
  ok (rounded amount fraction quotient.0 quotient.1)
