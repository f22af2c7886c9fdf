-- ===== src/Wallet/Events.antt =====
-- src/adapter/wallet-adapter.ts: messages from other tabs, and the events of the provider.
use kalvora_js.Common.{Bool, true, false, Option, none, some, Text, text_eq, ok, err, if◌then◌else◌}
use kalvora_js.Keys.{Crypto}
use kalvora_js.Wallet.{
  Field, text, State, disconnected, connected, embedded, deeplink, wallet_signer, by_wallet,
  connect, disconnect, error, sign_result, sign_error, Message, connect_result, connect_error,
  sign_failed, signed, Wallet, Tab, Browser, Config, emit, clear_persistence, validate_pending,
  valid_key, resolve_wallet_address,
}
use kalvora_js.Wallet.Signing.{
  SignOutcome, nothing, result, thrown, consume_broadcast_result, consume_broadcast_error,
}
use kalvora_js.Wallet.Session.{with_wallet, join, left, held_key, link_signer}

module _ (crypto : Crypto) (decode_uri : Text → Option Text) (config : Config) where
  abbrev pub is_connected : Wallet → Bool
  is_connected w = elim w.state [ connected ↦ true | _ ↦ false ]

  -- A connection that another tab passes on.
  abbrev pub joined_by : Browser → Text → Field → Tab × Bool → Tab
  joined_by browser key supplied (t, false) = t
  joined_by browser key supplied (t, true) = elim (resolve_wallet_address crypto key supplied) [
    | err e ↦ t
    | ok address ↦
        emit (connect key address deeplink)
          (join browser key address deeplink (link_signer config browser key) t)
  ]

  abbrev pub passed_on : Browser → Field → Field → Field → Tab → Tab
  passed_on browser account supplied (text id) t = elim (valid_key crypto account) [
    | none ↦ t
    | some key ↦ joined_by browser key supplied (validate_pending browser (some id) true t)
  ]
  passed_on browser account supplied _ t = t

  abbrev pub told_error : Text → Tab × Bool → Tab
  told_error message (t, known) = if known then emit (error (by_wallet message)) t else t

  abbrev pub error_passed_on : Browser → Field → Field → Tab → Tab
  error_passed_on browser (text id) (text message) t =
      told_error message (validate_pending browser (some id) true t)
  error_passed_on browser _ _ t = t

  abbrev pub signature_passed_on : Tab × SignOutcome → Tab
  signature_passed_on (t, nothing) = t
  signature_passed_on (t, result r) =
      emit (sign_result r) (with_wallet (record t.wallet { pending_sign = some r }) t)
  signature_passed_on (t, thrown e) = emit (sign_error e) t

  abbrev pub failure_passed_on : Text → Tab × Bool → Tab
  failure_passed_on message (t, known) =
      if known then emit (sign_error (by_wallet message)) t else t

  -- The handler of messages from other tabs.
  unfoldable pub receive : Browser → Message → Tab → Tab
  receive browser (connect_result account supplied id) t =
      if is_connected t.wallet then t else passed_on browser account supplied id t
  receive browser (connect_error id message) t =
      if is_connected t.wallet then t else error_passed_on browser id message t
  receive browser (signed (text encoded) (text id)) t =
      signature_passed_on
        (consume_broadcast_result decode_uri browser encoded id config.sign_timeout t)
  receive browser (sign_failed (text id) (text message)) t =
      failure_passed_on message (consume_broadcast_error browser id config.sign_timeout t)
  receive browser _ t = t

  abbrev pub same_key : Wallet → Field → Bool
  same_key w (text key) = elim (held_key w) [ none ↦ false | some k ↦ text_eq k key ]
  same_key w _ = false

  -- The provider's `connect` event.
  unfoldable pub provider_connected : Browser → Field → Field → Tab → Tab
  provider_connected browser account supplied t =
      if same_key t.wallet account then t else elim (valid_key crypto account) [
        | none ↦ t
        | some key ↦ elim (resolve_wallet_address crypto key supplied) [
          | err e ↦ emit (error e) t
          | ok address ↦
              emit (connect key address embedded)
                (join browser key address embedded (wallet_signer key) t)
        ]
      ]

unfoldable pub depart : Browser → Tab → State → Tab
depart browser t disconnected = t
depart browser t _ = emit disconnect (clear_persistence browser (with_wallet (left t.wallet) t))

-- The provider's `disconnect` event.
unfoldable pub provider_disconnected : Browser → Tab → Tab
provider_disconnected browser t = depart browser t t.wallet.state
