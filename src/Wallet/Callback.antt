-- ===== src/Wallet/Callback.antt =====
-- src/adapter/wallet-adapter.ts: what a new page does (`_handleRedirectResult`,
-- `_restoreConnection`, the constructor).
use kalvora_js.Common.{
  ℕ, zero, suc, Bool, true, false, not, ◌&&◌, ◌||◌, Option, none, some, List, [], ◌∷◌, ◌++◌, Text,
  codes, text_eq, Result, ok, err, if◌then◌else◌,
}
use kalvora_js.Common.Int.{ℤ}
use kalvora_js.Js.{starts_with}
use kalvora_js.Keys.{Crypto}
use kalvora_js.Wallet.{
  Field, text, missing, falsy, Stored, object, Mode, embedded, deeplink, manual, unknown,
  wallet_signer, Connection, by_wallet, invalid_key, connect, error, sign_result, sign_error,
  connect_result, connect_error, sign_failed, signed, Params, Tab, Browser, Config, initial, emit,
  emit_later, broadcast_message, clean_url, validate_pending, valid_key, resolve_wallet_address,
}
use kalvora_js.Wallet.Signature.{message_of}
use kalvora_js.Wallet.Signing.{SignOutcome, nothing, result, thrown, check_sign_result}
use kalvora_js.Wallet.Session.{
  with_wallet, joined, join, Begun, refused, begin_connect, link_signer,
}

abbrev pub or_text : Option Text → Field
or_text none = missing
or_text (some t) = text t

abbrev pub is_sign_id : Option Text → Bool
is_sign_id none = false
is_sign_id (some id) = starts_with (codes "zr_sign_") id || starts_with (codes "zr_msg_") id

-- The mode that a stored connection gets where no provider is injected.
abbrev pub restored_mode : Field → Mode
restored_mode missing = manual
restored_mode (text m) =
    if text_eq m (codes "embedded") || text_eq m (codes "deeplink")
    then deeplink
    else if text_eq m (codes "manual")
    then manual
    else unknown
restored_mode _ = unknown

abbrev pub is_falsy : Field → Bool
is_falsy (text []) = true
is_falsy missing = true
is_falsy falsy = true
is_falsy (Field.number (kalvora_js.Common.Int.ℤ.pos zero)) = true
is_falsy _ = false

module _ (crypto : Crypto) (decode_uri : Text → Option Text) (config : Config) where
  abbrev pub forget_stored : Tab → Tab
  forget_stored t = record t { stored = none }

  unfoldable pub restore_key : Browser → Connection → Text → Tab → Tab
  restore_key browser c key t = elim (resolve_wallet_address crypto key c.address) [
    | err e ↦ forget_stored t
    | ok address ↦
        if browser.injected
        then emit (connect key address embedded) (
            with_wallet
              (record (joined t.wallet key address embedded (wallet_signer key)) {
                provider = true;
              })
              t)
        else emit (connect key address (restored_mode c.mode)) (
            with_wallet
              (joined t.wallet key address (restored_mode c.mode) (link_signer config browser key))
              t)
  ]

  unfoldable pub restore_from : Browser → Option (Stored Connection) → Tab → Tab
  restore_from browser (some (object c)) t =
      if is_falsy c.public_key then t else elim (valid_key crypto c.public_key) [
        | none ↦ forget_stored t
        | some key ↦ restore_key browser c key t
      ]
  restore_from browser _ t = t

  -- `_restoreConnection`
  unfoldable pub restore : Browser → Tab → Tab
  restore browser t = if browser.local_storage then restore_from browser t.stored t else t

  -- The answer to a request to sign that this tab has not made.
  unfoldable pub pass_on : Browser → Option Text → Option Text → Option Text → Tab → Tab
  pass_on browser id (some encoded) message t =
      broadcast_message browser (signed (text encoded) (or_text id)) t
  pass_on browser id none (some message) t =
      broadcast_message browser (sign_failed (or_text id) (text message)) t
  pass_on browser id none none t = t

  -- A call-back that answers a request to sign.
  abbrev pub signed_outcome : Browser → Params → Tab × SignOutcome → Tab
  signed_outcome browser url (t, result r) =
      emit_later (sign_result r) (with_wallet (record t.wallet { pending_sign = some r }) t)
  signed_outcome browser url (t, thrown e) =
      broadcast_message browser (sign_failed (or_text url.request_id) (text (message_of e)))
        (emit_later (sign_error e) t)
  signed_outcome browser url (t, nothing) = pass_on browser url.request_id url.result url.error t

  -- A call-back for a request that this tab has not made is passed on to the other tabs.
  unfoldable pub forward_of :
      Browser → Option Text → Option Text → Option Text → Option Text → Tab → Tab
  forward_of browser supplied none encoded message t = t
  forward_of browser supplied (some id) (some key) message t = elim (valid_key crypto (text key)) [
    | none ↦ t
    | some valid ↦
        broadcast_message browser (connect_result (text key) (or_text supplied) (text id)) t
  ]
  forward_of browser supplied (some id) none (some message) t =
      broadcast_message browser (connect_error (text id) (text message)) t
  forward_of browser supplied (some id) none none t = t

  unfoldable pub forward : Browser → Params → Tab → Tab
  forward browser url t = forward_of browser url.address url.request_id url.result url.error t

  abbrev pub link_key : Browser → Text → Field → Tab → Tab
  link_key browser key supplied t = elim (resolve_wallet_address crypto key supplied) [
    | err e ↦ emit (error e) t
    | ok address ↦
        emit_later (connect key address deeplink)
          (join browser key address deeplink (link_signer config browser key) t)
  ]

  -- A call-back for the request of this tab, which it has used up: its error, or its key.
  unfoldable pub answered : Browser → Option Text → Option Text → Option Text → Tab → Tab
  answered browser (some message) key supplied t = emit (error (by_wallet message)) t
  answered browser none key supplied t = elim (valid_key crypto (or_text key)) [
    | none ↦ emit (error invalid_key) t
    | some valid ↦ link_key browser valid (or_text supplied) t
  ]

  unfoldable pub answered_by_link : Browser → Params → Tab → Tab
  answered_by_link browser url t = answered browser url.error url.result url.address t

  abbrev pub correlated : Browser → Params → Tab × Bool → Tab
  correlated browser url (t, true) =
      answered_by_link browser url (clean_url (validate_pending browser url.request_id true t).0)
  correlated browser url (t, false) = clean_url (forward browser url t)

  unfoldable pub connect_callback : Browser → Params → Tab → Tab
  connect_callback browser url t =
      correlated browser url (validate_pending browser url.request_id false t)

  abbrev pub has_result : Params → Bool
  has_result url = elim url.result [
    | some r ↦ true
    | none ↦ elim url.error [ some e ↦ true | none ↦ false ]
  ]

  -- `_handleRedirectResult`, which the constructor calls.
  unfoldable pub handle_redirect : Browser → Tab → Tab
  handle_redirect browser t =
      if not (has_result t.url)
      then restore browser t
      else if is_sign_id t.url.request_id
      then signed_outcome browser t.url
          (check_sign_result decode_uri browser config.sign_timeout (restore browser t))
      else connect_callback browser t.url t

  -- A new page: the constructor, with the connection that it may begin.
  abbrev pub told : Tab × Begun → Tab × Option Begun
  told (t, refused e) = (emit_later (error e) t, some (refused e))
  told (t, begun) = (t, some begun)

  unfoldable pub load : Browser → Tab → Tab × Option Begun
  load browser t =
      let t' = handle_redirect browser (with_wallet initial t) in
      if config.auto_connect then told (begin_connect config browser t') else (t', none)
