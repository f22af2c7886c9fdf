-- ===== src/Bridge/Kalvora.antt =====
-- src/smart-contracts/use-cases/bridge/guardian/vaa.ts: `submitVAAToKalvora`. The three functions that
-- build and send a Kalvora transaction are components that it calls: their answers are a parameter.
use mathlib.Core.Path.{subst}
use kalvora_js.Common.{◌≡◌, refl, sym, ap, Option, List, [], ◌∷◌, Result, ok, err, Text}
use kalvora_js.Bridge.Payload.{
  KalvoraCase, kal_release, kal_mint, kal_contract, kal_other, KalvoraPayload,
}
use kalvora_js.Bridge.Run.{Run, Answers, Thrown, by_call, by_code, return, throw, ◌>>=◌, call}

-- `N` is the type of the gas fee, a number that is passed on.
pub record KalvoraOptions (N : Type 0) : Type 0 where
  pub public_key : Text
  pub private_key : Text
  pub fee_amount_parts : Option Text
  pub gas_fee_in_usd : Option N
  pub fee_id : Option Text

-- `releaseKalvoraAndSend`, `mintSolAndSend` and `createSolAndSend`: the wallet, then what is passed on.
pub data KalvoraCall (N : Type 0) : Type 0 where
  release_and_send mint_and_send create_and_send :
      Text → KalvoraOptions N → KalvoraPayload → KalvoraCall N

abbrev pub TxnHash : {N : Type 0} → KalvoraCall N → Type 0
TxnHash c = Text

pub data KalvoraOperation : Type 0 where
  release mint : KalvoraOperation

pub data KalvoraFailure : Type 0 where
  unsupported_kalvora : KalvoraFailure

module _ {N E : Type 0} (answer : Answers (KalvoraCall N) TxnHash E)
    (options : KalvoraOptions N) where
  -- Everything behind the fetch: the hash and the operation that are returned.
  unfoldable pub submit_kalvora :
      KalvoraPayload → Run (KalvoraCall N) (Thrown E KalvoraFailure) (Text × KalvoraOperation)
  submit_kalvora p = elim p.payload [
    | kal_release wallet ↦ (do
      txn_hash ← call answer (release_and_send wallet options p)
      return (txn_hash, release))
    | kal_mint wallet ↦ (do
      txn_hash ← call answer (mint_and_send wallet options p)
      return (txn_hash, mint))
    | kal_contract wallet ↦ (do
      txn_hash ← call answer (create_and_send wallet options p)
      return (txn_hash, mint))
    | kal_other ↦ throw (by_code unsupported_kalvora)
  ]

  -- The one call for a payload, and the operation that is reported for it.
  abbrev pub KalvoraPlan : KalvoraPayload → KalvoraCase → KalvoraCall N → KalvoraOperation → Type 0
  KalvoraPlan p (kal_release wallet) c op = (c ≡ release_and_send wallet options p) × (op ≡ release)
  KalvoraPlan p (kal_mint wallet) c op = (c ≡ mint_and_send wallet options p) × (op ≡ mint)
  KalvoraPlan p (kal_contract wallet) c op = (c ≡ create_and_send wallet options p) × (op ≡ mint)
  KalvoraPlan p kal_other c op = ⊥

  -- What a run has done: one call, whose answer or error is passed on; or none, for a payload of
  -- another kind.
  abbrev pub KalvoraOutcome :
      KalvoraPayload
      → KalvoraCase
      → List (KalvoraCall N) × Result (Thrown E KalvoraFailure) (Text × KalvoraOperation)
      → Type 0
  KalvoraOutcome p payload (made, ok (txn_hash, op)) =
      (c : KalvoraCall N) × KalvoraPlan p payload c op
      × (made ≡ c ∷ [])
      × (answer c [] ≡ ok txn_hash)
  KalvoraOutcome p payload (made, err (by_call e)) =
      (c : KalvoraCall N) × (op : KalvoraOperation) × KalvoraPlan p payload c op
      × (made ≡ c ∷ [])
      × (answer c [] ≡ err e)
  KalvoraOutcome p payload (made, err (by_code f)) = (payload ≡ kal_other) × (made ≡ [])

  report :
      KalvoraOperation
      → Text
      → Run (KalvoraCall N) (Thrown E KalvoraFailure) (Text × KalvoraOperation)
  report op txn_hash = return (txn_hash, op)

  one_call :
      (p : KalvoraPayload) (payload : KalvoraCase) (c : KalvoraCall N) (op : KalvoraOperation)
      → KalvoraPlan p payload c op
      → KalvoraOutcome p payload ((call answer c >>= report op) [])
  unfolding report
  one_call p payload c op plan = go (answer c []) refl
    where
      go :
          (r : Result E Text)
          → answer c [] ≡ r
          → KalvoraOutcome p payload ((call answer c >>= report op) [])
      go (ok txn_hash) e = rw e (c, plan, refl, e)
      go (err failed) e = rw e (c, op, plan, refl, e)

  planned :
      (p : KalvoraPayload) (payload : KalvoraCase) (c : KalvoraCall N) (op : KalvoraOperation)
      → KalvoraPlan p payload c op
      → submit_kalvora p ≡ (call answer c >>= report op)
      → KalvoraOutcome p payload (submit_kalvora p [])
  planned p payload c op plan run =
      subst (KalvoraOutcome p payload) (ap (λ f. f []) (sym run)) (one_call p payload c op plan)

  case_outcome :
      (p : KalvoraPayload) (payload : KalvoraCase)
      → p.payload ≡ payload
      → KalvoraOutcome p payload (submit_kalvora p [])
  unfolding submit_kalvora report
  case_outcome p (kal_release wallet) is =
      planned p (kal_release wallet) (release_and_send wallet options p) release (refl, refl)
        (rw is refl)
  case_outcome p (kal_mint wallet) is =
      planned p (kal_mint wallet) (mint_and_send wallet options p) mint (refl, refl) (rw is refl)
  case_outcome p (kal_contract wallet) is =
      planned p (kal_contract wallet) (create_and_send wallet options p) mint (refl, refl)
        (rw is refl)
  case_outcome p kal_other is =
      subst (KalvoraOutcome p kal_other) (ap (λ f. f []) (sym other)) (refl, refl)
    where
      other : submit_kalvora p ≡ throw (by_code unsupported_kalvora)
      other = rw is refl

  -- Every run makes at most one call, the one that fits the payload, with the wallet that the payload
  -- names and the whole payload; its answer, or its error, is what comes back.
  pub submit_kalvora-outcome :
      (p : KalvoraPayload) → KalvoraOutcome p p.payload (submit_kalvora p [])
  submit_kalvora-outcome p = case_outcome p p.payload refl
