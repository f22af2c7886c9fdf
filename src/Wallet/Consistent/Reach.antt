-- ===== src/Wallet/Consistent/Reach.antt =====
-- src/adapter/wallet-adapter.ts: every state that the adapter reaches is consistent.
use mathlib.Core.Path.{subst}
use kalvora_js.Common.{
  ◌≡◌, sym, Bool, true, false, Option, none, some, Text, Result, Result-cases, Option-cases,
  if_both, inl, inr,
}
use kalvora_js.Keys.{Crypto, is_valid_wallet_key}
use kalvora_js.Wallet.{
  Field, text, number, missing, falsy, other, State, disconnected, connecting, connected, embedded,
  deeplink, SignKind, Message, connect_result, connect_error, signed, sign_failed, Wallet, Tab,
  Browser, Config, initial, clear_persistence, validate_pending, valid_key, resolve_wallet_address,
  is_working,
}
use kalvora_js.Wallet.Signing.{
  SignOutcome, nothing, result, thrown, Live, get_pending, claimed_broadcast, claimed_error,
  consume_broadcast_result, consume_broadcast_error, start_signing,
}
use kalvora_js.Wallet.Session.{consume_pending_sign}
use kalvora_js.Wallet.Events.{
  is_connected, joined_by, passed_on, error_passed_on, signature_passed_on, receive, depart,
  same_key, provider_connected, provider_disconnected,
}
use kalvora_js.Wallet.Run.{
  Step, loads, begins, answers, joins_manually, leaves, receives, provider_joins, provider_leaves,
  takes_result, signs, other_tab_stores, Reach, here, next,
}
use kalvora_js.Wallet.Consistent.{Consistent, valid_key-some, left-Consistent, initial-Consistent}
use kalvora_js.Wallet.Consistent.Steps.{
  Kept, begin_connect-Kept, disconnect_tab-Kept, join_link-Kept, join_wallet-Kept,
  connect_manual-Kept, accounts_answered-Kept,
}
use kalvora_js.Wallet.Consistent.Untouched.{validate_pending-wallet, get_pending-wallet}
use kalvora_js.Wallet.Consistent.Callbacks.{moved, sign-Kept, load-Kept}

module _ (crypto : Crypto) (decode_uri : Text → Option Text) (config : Config) where
  joined_by-Kept :
      (browser : Browser) (key : Text) (supplied : Field) (r : Tab × Bool)
      → is_valid_wallet_key crypto key ≡ true
      → Kept crypto r.0
      → Kept crypto (joined_by crypto decode_uri config browser key supplied r)
  joined_by-Kept browser key supplied (t, false) valid h = h
  joined_by-Kept browser key supplied (t, true) valid h =
      elim (Result-cases (resolve_wallet_address crypto key supplied)) [
        | inr (e, is) ↦ rw (is, joined_by) h
        | inl (address, is) ↦
            rw (is, joined_by)
              (join_link-Kept crypto config browser t key address supplied deeplink (λ e. cc e)
                valid is)
      ]

  passed_on-Kept :
      (browser : Browser) (account supplied id : Field) (t : Tab)
      → Kept crypto t
      → Kept crypto (passed_on crypto decode_uri config browser account supplied id t)
  passed_on-Kept browser account supplied (text id) t h =
      elim (Option-cases (valid_key crypto account)) [
        | inl bad ↦ rw (bad, passed_on) h
        | inr (key, good) ↦
            rw (good, passed_on)
              (joined_by-Kept browser key supplied (validate_pending browser (some id) true t)
                (valid_key-some crypto account key good).1
                (moved crypto decode_uri config (validate_pending-wallet browser (some id) true t)
                  h))
      ]
  passed_on-Kept browser account supplied (number n) t h = h
  passed_on-Kept browser account supplied missing t h = h
  passed_on-Kept browser account supplied falsy t h = h
  passed_on-Kept browser account supplied other t h = h

  error_passed_on-Kept :
      (browser : Browser) (id message : Field) (t : Tab)
      → Kept crypto t
      → Kept crypto (error_passed_on crypto decode_uri config browser id message t)
  error_passed_on-Kept browser (text id) (text message) t h =
      let r = validate_pending browser (some id) true t in
      let hr =
        moved crypto decode_uri config (validate_pending-wallet browser (some id) true t) h in
      if_both (Kept crypto) r.1 _ _ hr hr
  error_passed_on-Kept browser (text id) (number n) t h = h
  error_passed_on-Kept browser (text id) missing t h = h
  error_passed_on-Kept browser (text id) falsy t h = h
  error_passed_on-Kept browser (text id) other t h = h
  error_passed_on-Kept browser (number n) message t h = h
  error_passed_on-Kept browser missing message t h = h
  error_passed_on-Kept browser falsy message t h = h
  error_passed_on-Kept browser other message t h = h

  signature_passed_on-Kept :
      (r : Tab × SignOutcome)
      → Kept crypto r.0
      → Kept crypto (signature_passed_on crypto decode_uri config r)
  signature_passed_on-Kept (t, nothing) h = h
  signature_passed_on-Kept (t, result s) h = sign-Kept crypto decode_uri config t.wallet (some s) h
  signature_passed_on-Kept (t, thrown e) h = h

  claimed_broadcast-Kept :
      (encoded : Text) (r : Tab × Option Live)
      → Kept crypto r.0
      → Kept crypto (claimed_broadcast decode_uri encoded r).0
  claimed_broadcast-Kept encoded (t, none) h = h
  claimed_broadcast-Kept encoded (t, some live) h = h

  claimed_error-Kept : (r : Tab × Option Live) → Kept crypto r.0 → Kept crypto (claimed_error r).0
  claimed_error-Kept (t, none) h = h
  claimed_error-Kept (t, some live) h = h

  receive-Kept :
      (browser : Browser) (message : Message) (t : Tab)
      → Kept crypto t
      → Kept crypto (receive crypto decode_uri config browser message t)
  unfolding receive consume_broadcast_result consume_broadcast_error
  receive-Kept browser (connect_result account supplied id) t h =
      if_both (Kept crypto) (is_connected crypto decode_uri config t.wallet) _ _ h
        (passed_on-Kept browser account supplied id t h)
  receive-Kept browser (connect_error id message) t h =
      if_both (Kept crypto) (is_connected crypto decode_uri config t.wallet) _ _ h
        (error_passed_on-Kept browser id message t h)
  receive-Kept browser (signed (text encoded) (text id)) t h = signature_passed_on-Kept _ (
      claimed_broadcast-Kept encoded (get_pending browser (some id) config.sign_timeout t) (
        moved crypto decode_uri config (get_pending-wallet browser (some id) config.sign_timeout t)
          h))
  receive-Kept browser (sign_failed (text id) (text message)) t h =
      let r = claimed_error (get_pending browser (some id) config.sign_timeout t) in
      let hr = claimed_error-Kept (get_pending browser (some id) config.sign_timeout t) (
        moved crypto decode_uri config (get_pending-wallet browser (some id) config.sign_timeout t)
          h) in
      if_both (Kept crypto) r.1 _ _ hr hr
  receive-Kept browser _ t h = h

  provider_connected-Kept :
      (browser : Browser) (account supplied : Field) (t : Tab)
      → Kept crypto t
      → Kept crypto (provider_connected crypto decode_uri config browser account supplied t)
  unfolding provider_connected
  provider_connected-Kept browser account supplied t h =
      if_both (Kept crypto) (same_key crypto decode_uri config t.wallet account) _ _ h
        (elim (Option-cases (valid_key crypto account)) [
          | inl bad ↦ rw bad h
          | inr (key, good) ↦
              let valid = (valid_key-some crypto account key good).1 in
              elim (Result-cases (resolve_wallet_address crypto key supplied)) [
                | inr (e, is) ↦ rw good (rw is h)
                | inl (address, is) ↦
                    rw good (
                      rw is
                        (join_wallet-Kept crypto config browser t key address supplied valid is))
              ]
        ])

  depart-Kept :
      (browser : Browser) (t : Tab) (s : State) → Kept crypto t → Kept crypto (depart browser t s)
  unfolding depart clear_persistence
  depart-Kept browser t disconnected h = h
  depart-Kept browser t connecting h = left-Consistent crypto t.wallet
  depart-Kept browser t connected h = left-Consistent crypto t.wallet

  Step-Kept : {t u : Tab} → Step crypto decode_uri config t u → Kept crypto t → Kept crypto u
  unfolding provider_disconnected consume_pending_sign start_signing
  Step-Kept (loads browser url t) h =
      load-Kept crypto decode_uri config browser (record t { url = url })
  Step-Kept (begins browser t) h = begin_connect-Kept crypto config browser t h
  Step-Kept (answers browser answer t) h = accounts_answered-Kept crypto config browser answer t h
  Step-Kept (joins_manually browser key t) h = connect_manual-Kept crypto config browser key t h
  Step-Kept (leaves browser t) h = disconnect_tab-Kept crypto config browser t
  Step-Kept (receives browser message t) h = receive-Kept browser message t h
  Step-Kept (provider_joins browser account supplied t) h =
      provider_connected-Kept browser account supplied t h
  Step-Kept (provider_leaves browser t) h = depart-Kept browser t t.wallet.state h
  Step-Kept (takes_result t) h = sign-Kept crypto decode_uri config t.wallet none h
  Step-Kept (signs browser kind key callback bytes t) h =
      if_both (λ (r : Tab × Result kalvora_js.Wallet.WalletError (Unit {0})). Kept crypto r.0)
        (is_working browser.session) _ _ h h
  Step-Kept (other_tab_stores stored t) h = h

  Reach-Kept : {t u : Tab} → Reach crypto decode_uri config t u → Kept crypto t → Kept crypto u
  Reach-Kept here h = h
  Reach-Kept (next r s) h = Step-Kept s (Reach-Kept r h)

  -- From a page that holds nothing, whatever happens and in whatever order: either nothing is held and
  -- the adapter is not connected, or a valid key is held, with the address that this key has and no
  -- other, and with a signer for this key, the wallet's own exactly in the embedded mode.
  pub Reach-Consistent :
      (t u : Tab)
      → t.wallet ≡ initial
      → Reach crypto decode_uri config t u
      → Consistent crypto u.wallet
  Reach-Consistent t u e r =
      Reach-Kept r (subst (Consistent crypto) (sym e) (initial-Consistent crypto))
