-- ===== src/Wallet/Signing.antt =====
-- src/adapter/wallet-signer.ts: `DeepLinkSigner` and the request that it leaves in the tab's storage.
use kalvora_js.Common.{
  Bool, true, false, ◌&&◌, Option, none, some, [], ◌∷◌, ◌++◌, Text, codes, text_eq, Result, ok, err,
  if◌then◌else◌, ◌==◌,
}
use kalvora_js.Common.Int.{ℤ, pos, ltb_ℤ}
use kalvora_js.Js.{starts_with}
use kalvora_js.Bytes.{Bytes}
use kalvora_js.Wallet.{
  Field, text, number, Stored, unparsable, null_value, object, SignKind, sign, sign_message,
  SignResult, PendingSign, WalletError, by_wallet, session_refused, navigated, Params, Tab, Browser,
  is_working, is_stale,
}
use kalvora_js.Wallet.Signature.{to_base64, decode_signature}

-- A request that is live: its kind, its identifier and the key that it is for.
pub record Live : Type 0 where
  pub kind : SignKind
  pub id : Text
  pub public_key : Option Text

abbrev pub max_sign_ttl : ℤ
max_sign_ttl = pos 600_000

abbrev pub min_ℤ : ℤ → ℤ → ℤ
min_ℤ a b = if ltb_ℤ b a then b else a

unfoldable pub kind_of : Field → Option SignKind
kind_of (text kind) =
    if text_eq kind (codes "sign")
    then some sign
    else if text_eq kind (codes "sign-message")
    then some sign_message
    else none
kind_of _ = none

abbrev pub kind_prefix : SignKind → Text
kind_prefix sign = codes "zr_sign_"
kind_prefix sign_message = codes "zr_msg_"

abbrev pub kind_text : SignKind → Text
kind_text sign = codes "sign"
kind_text sign_message = codes "sign-message"

abbrev pub payload_name : SignKind → Text
payload_name sign = codes "txn"
payload_name sign_message = codes "message"

abbrev pub forget_signing : Tab → Tab
forget_signing t = record t { signing = none }

-- A request of a known kind, with an identifier of that kind and a time.
unfoldable pub sign_shape : PendingSign → Text → Option (SignKind × ℤ)
sign_shape p id = elim (kind_of p.kind) [
  | none ↦ none
  | some kind ↦ elim p.timestamp [
    | number time ↦ if starts_with (kind_prefix kind) id then some (kind, time) else none
    | _ ↦ none
  ]
]

unfoldable pub check_live :
    Browser → Text → ℤ → Tab → Option Text → Text → Option (SignKind × ℤ) → Tab × Option Live
check_live browser request_id max_age t key id none = (forget_signing t, none)
check_live browser request_id max_age t key id (some (kind, time)) =
    if is_stale (min_ℤ max_age max_sign_ttl) browser.now time
    then (forget_signing t, none)
    else if text_eq id request_id
    then (t, some (record { kind = kind; id = id; public_key = key }))
    else (t, none)

-- An identifier that is not a text makes the check throw, which is caught: the item stays.
unfoldable pub check_id : Browser → Text → ℤ → Tab → PendingSign → Field → Tab × Option Live
check_id browser request_id max_age t p (text id) =
    check_live browser request_id max_age t p.public_key id (sign_shape p id)
check_id browser request_id max_age t p _ = (t, none)

unfoldable pub check_signing :
    Browser → Text → ℤ → Tab → Option (Stored PendingSign) → Tab × Option Live
check_signing browser request_id max_age t none = (t, none)
check_signing browser request_id max_age t (some null_value) = (t, none)
check_signing browser request_id max_age t (some unparsable) = (forget_signing t, none)
check_signing browser request_id max_age t (some (object p)) =
    check_id browser request_id max_age t p p.request_id

-- `_getPendingRequest`
unfoldable pub get_pending : Browser → Option Text → ℤ → Tab → Tab × Option Live
get_pending browser none max_age t = (t, none)
get_pending browser (some []) max_age t = (t, none)
get_pending browser (some (c ∷ id)) max_age t =
    if ltb_ℤ (pos 0) max_age && is_working browser.session
    then check_signing browser (c ∷ id) max_age t t.signing
    else (t, none)

abbrev pub without_dashes : Text → Text
without_dashes [] = []
without_dashes (c ∷ s) = if c == b'-' then without_dashes s else c ∷ without_dashes s

-- `sign` and `signMessage`: the request is left in the storage and the page navigates away. With no
-- storage nothing is asked for.
unfoldable pub start_signing :
    Browser → SignKind → Text → Text → Bytes → Tab → Tab × Result WalletError (Unit {0})
start_signing browser kind key callback bytes t =
    let id = kind_prefix kind ++ without_dashes browser.uuid in
    if is_working browser.session
    then (
      record t {
        signing = some (
            object (record {
              kind = text (kind_text kind);
              request_id = text id;
              timestamp = number browser.now;
              public_key = some key;
            }));
        log =
            navigated (kind_text kind) (
              (payload_name kind, to_base64 bytes)
              ∷ (codes "callback", callback)
              ∷ (codes "requestId", id)
              ∷ (codes "publicKey", key)
              ∷ [])
            ∷ t.log;
      },
      ok tt,
    )
    else (t, err session_refused)

pub data SignOutcome : Type 0 where
  nothing : SignOutcome
  result : SignResult → SignOutcome
  thrown : WalletError → SignOutcome

-- `_cleanCallbackUrl`: the address stays.
abbrev pub clean_callback : Tab → Tab
clean_callback t = record t {
  url = record { result = none; request_id = none; error = none; address = t.url.address };
}

module _ (decode_uri : Text → Option Text) where
  unfoldable pub signature_of : Live → Text → SignOutcome
  signature_of live encoded = elim (decode_signature decode_uri encoded live.public_key) [
    | err e ↦ thrown e
    | ok signature ↦ result (record {
      signature = signature;
      request_id = live.id;
      operation = live.kind;
      public_key = live.public_key;
    })
  ]

  -- What the page's address says of a request that is live: its error, or its result.
  abbrev pub outcome_of : Option Text → Option Text → Live → SignOutcome
  outcome_of (some message) encoded live = thrown (by_wallet message)
  outcome_of none (some encoded) live = signature_of live encoded
  outcome_of none none live = nothing

  abbrev pub claimed : Params → Tab × Option Live → Tab × SignOutcome
  claimed url (t, none) = (clean_callback t, nothing)
  claimed url (t, some live) =
      (clean_callback (forget_signing t), outcome_of url.error url.result live)

  abbrev pub has_outcome : Params → Bool
  has_outcome url = elim url.result [
    | some r ↦ true
    | none ↦ elim url.error [ some e ↦ true | none ↦ false ]
  ]

  unfoldable pub check_sign_result : Browser → ℤ → Tab → Tab × SignOutcome
  check_sign_result browser max_age t =
      if has_outcome t.url
      then claimed t.url (get_pending browser t.url.request_id max_age t)
      else (t, nothing)

  abbrev pub claimed_broadcast : Text → Tab × Option Live → Tab × SignOutcome
  claimed_broadcast encoded (t, none) = (t, nothing)
  claimed_broadcast encoded (t, some live) = (forget_signing t, signature_of live encoded)

  unfoldable pub consume_broadcast_result : Browser → Text → Text → ℤ → Tab → Tab × SignOutcome
  consume_broadcast_result browser encoded request_id max_age t =
      claimed_broadcast encoded (get_pending browser (some request_id) max_age t)

abbrev pub claimed_error : Tab × Option Live → Tab × Bool
claimed_error (t, none) = (t, false)
claimed_error (t, some live) = (forget_signing t, true)

unfoldable pub consume_broadcast_error : Browser → Text → ℤ → Tab → Tab × Bool
consume_broadcast_error browser request_id max_age t =
    claimed_error (get_pending browser (some request_id) max_age t)
