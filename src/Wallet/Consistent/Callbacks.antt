-- ===== src/Wallet/Consistent/Callbacks.antt =====
-- src/adapter/wallet-adapter.ts: a new page, messages and the provider's events keep key, address,
-- signer and mode together.
use mathlib.Core.Path.{subst}
use kalvora_js.Common.{
  ◌≡◌, ◌≢◌, refl, sym, Bool, true, false, not, Option, none, some, Text, Result-cases, Option-cases,
  if_both, inl, inr, text_eq, codes, ◌||◌,
}
use kalvora_js.Common.Int.{ℤ}
use kalvora_js.Keys.{Crypto, is_valid_wallet_key}
use kalvora_js.Wallet.{
  Field, text, number, missing, falsy, other, embedded, deeplink, manual, unknown, wallet_signer,
  Stored, unparsable, null_value, object, Connection, SignResult, clean_url, Params, Wallet, Tab,
  Browser, Config, initial, validate_pending, valid_key, resolve_wallet_address,
}
use kalvora_js.Wallet.Signing.{
  SignOutcome, nothing, result, thrown, Live, check_sign_result, get_pending, claimed, has_outcome,
}
use kalvora_js.Wallet.Session.{Begun, refused, with_wallet, joined, link_signer}
use kalvora_js.Wallet.Callback.{
  restore_key, restore_from, restore, or_text, is_falsy, restored_mode, signed_outcome, forward,
  link_key, answered, answered_by_link, correlated, forward_of, pass_on, connect_callback,
  has_result, is_sign_id, handle_redirect, told, load,
}
use kalvora_js.Wallet.Consistent.{
  Consistent, nothing_held, held, valid_key-some, resolve-generate_address, joined-Consistent,
  provider-Consistent, initial-Consistent,
}
use kalvora_js.Wallet.Consistent.Steps.{Kept, begin_connect-Kept, join_link-Kept, link-Fits}
use kalvora_js.Wallet.Consistent.Untouched.{
  validate_pending-wallet, get_pending-wallet, broadcast_message-wallet,
}

restored_mode-ne-embedded : (f : Field) → restored_mode f ≢ embedded
restored_mode-ne-embedded (text m) =
    if_both (λ k. k ≢ embedded) (text_eq m (codes "embedded") || text_eq m (codes "deeplink")) _ _
      (λ e. cc e)
      (if_both (λ k. k ≢ embedded) (text_eq m (codes "manual")) manual unknown (λ e. cc e)
        (λ e. cc e))
restored_mode-ne-embedded (number n) = λ e. cc e
restored_mode-ne-embedded missing = λ e. cc e
restored_mode-ne-embedded falsy = λ e. cc e
restored_mode-ne-embedded other = λ e. cc e

module _ (crypto : Crypto) (decode_uri : Text → Option Text) (config : Config) where
  claimed-wallet :
      (url : Params) (t : Tab) (r : Tab × Option Live)
      → r.0.wallet ≡ t.wallet
      → (claimed decode_uri url r).0.wallet ≡ t.wallet
  claimed-wallet url t (u, none) h = h
  claimed-wallet url t (u, some live) h = h

  check_sign_result-wallet :
      (browser : Browser) (age : ℤ) (t : Tab)
      → (check_sign_result decode_uri browser age t).0.wallet ≡ t.wallet
  unfolding check_sign_result
  check_sign_result-wallet browser age t =
      if_both (λ (r : Tab × SignOutcome). r.0.wallet ≡ t.wallet) (has_outcome decode_uri t.url) _ _
        (claimed-wallet t.url t (get_pending browser t.url.request_id age t)
          (get_pending-wallet browser t.url.request_id age t))
        refl

  restore_key-Kept :
      (browser : Browser) (c : Connection) (key : Text) (t : Tab)
      → is_valid_wallet_key crypto key ≡ true
      → Kept crypto t
      → Kept crypto (restore_key crypto decode_uri config browser c key t)
  unfolding restore_key
  restore_key-Kept browser c key t valid h =
      elim (Result-cases (resolve_wallet_address crypto key c.address)) [
        | inr (e, is) ↦ rw (is, restore_key) h
        | inl (address, is) ↦
            rw (is, restore_key)
              (let made = resolve-generate_address crypto key c.address address is in
                let mode = restored_mode c.mode in
                if_both (Kept crypto) browser.injected _ _
                  (provider-Consistent crypto
                    (joined t.wallet key address embedded (wallet_signer key)) true
                    (joined-Consistent crypto t.wallet key address embedded (wallet_signer key)
                      valid made refl))
                  (joined-Consistent crypto t.wallet key address mode
                    (link_signer config browser key) valid made
                    (link-Fits crypto config browser key mode (restored_mode-ne-embedded c.mode))))
      ]

  restore_from-Kept :
      (browser : Browser) (o : Option (Stored Connection)) (t : Tab)
      → Kept crypto t
      → Kept crypto (restore_from crypto decode_uri config browser o t)
  unfolding restore_from
  restore_from-Kept browser none t h = h
  restore_from-Kept browser (some unparsable) t h = h
  restore_from-Kept browser (some null_value) t h = h
  restore_from-Kept browser (some (object c)) t h =
      if_both (Kept crypto) (is_falsy c.public_key) _ _ h
        (elim (Option-cases (valid_key crypto c.public_key)) [
          | inl bad ↦ rw bad h
          | inr (key, good) ↦
              rw good
                (restore_key-Kept browser c key t (valid_key-some crypto c.public_key key good).1 h)
        ])

  restore-Kept :
      (browser : Browser) (t : Tab)
      → Kept crypto t
      → Kept crypto (restore crypto decode_uri config browser t)
  unfolding restore
  restore-Kept browser t h =
      if_both (Kept crypto) browser.local_storage _ _ (restore_from-Kept browser t.stored t h) h

  pub moved : {v w : Wallet} → w ≡ v → Consistent crypto v → Consistent crypto w
  moved e h = subst (Consistent crypto) (sym e) h

  pass_on-wallet :
      (browser : Browser) (id encoded message : Option Text) (t : Tab)
      → (pass_on crypto decode_uri config browser id encoded message t).wallet ≡ t.wallet
  unfolding pass_on
  pass_on-wallet browser id (some encoded) message t = broadcast_message-wallet browser _ t
  pass_on-wallet browser id none (some message) t = broadcast_message-wallet browser _ t
  pass_on-wallet browser id none none t = refl

  pub sign-Kept :
      (w : Wallet) (r : Option SignResult)
      → Consistent crypto w
      → Consistent crypto (record w { pending_sign = r })
  sign-Kept w r (nothing_held a b c d e) = nothing_held a b c d e
  sign-Kept w r (held key address mode signer valid made a b c d fits) =
      held key address mode signer valid made a b c d fits

  signed_outcome-Kept :
      (browser : Browser) (url : Params) (r : Tab × SignOutcome)
      → Kept crypto r.0
      → Kept crypto (signed_outcome crypto decode_uri config browser url r)
  signed_outcome-Kept browser url (t, result r) h = sign-Kept t.wallet (some r) h
  signed_outcome-Kept browser url (t, thrown e) h = moved (broadcast_message-wallet browser _ _) h
  signed_outcome-Kept browser url (t, nothing) h =
      moved (pass_on-wallet browser url.request_id url.result url.error t) h

  pub forward_of-wallet :
      (browser : Browser) (supplied id encoded message : Option Text) (t : Tab)
      → (forward_of crypto decode_uri config browser supplied id encoded message t).wallet
        ≡ t.wallet
  unfolding forward_of
  forward_of-wallet browser supplied none encoded message t = refl
  forward_of-wallet browser supplied (some id) (some key) message t =
      elim (Option-cases (valid_key crypto (text key))) [
        | inl bad ↦ rw (bad, forward_of) refl
        | inr (k, good) ↦ rw (good, forward_of) (broadcast_message-wallet browser _ t)
      ]
  forward_of-wallet browser supplied (some id) none (some message) t =
      broadcast_message-wallet browser _ t
  forward_of-wallet browser supplied (some id) none none t = refl

  link_key-Kept :
      (browser : Browser) (key : Text) (supplied : Field) (t : Tab)
      → is_valid_wallet_key crypto key ≡ true
      → Kept crypto t
      → Kept crypto (link_key crypto decode_uri config browser key supplied t)
  link_key-Kept browser key supplied t valid h =
      elim (Result-cases (resolve_wallet_address crypto key supplied)) [
        | inr (e, is) ↦ rw (is, link_key) h
        | inl (address, is) ↦
            rw (is, link_key)
              (join_link-Kept crypto config browser t key address supplied deeplink (λ e. cc e)
                valid is)
      ]

  answered-Kept :
      (browser : Browser) (message key supplied : Option Text) (t : Tab)
      → Kept crypto t
      → Kept crypto (answered crypto decode_uri config browser message key supplied t)
  unfolding answered
  answered-Kept browser (some message) key supplied t h = h
  answered-Kept browser none key supplied t h =
      elim (Option-cases (valid_key crypto (or_text key))) [
        | inl bad ↦ rw (bad, answered) h
        | inr (k, good) ↦
            rw (good, answered)
              (link_key-Kept browser k (or_text supplied) t
                (valid_key-some crypto (or_text key) k good).1 h)
      ]

  correlated-Kept :
      (browser : Browser) (url : Params) (r : Tab × Bool)
      → Kept crypto r.0
      → Kept crypto (correlated crypto decode_uri config browser url r)
  unfolding answered_by_link forward
  correlated-Kept browser url (t, true) h =
      answered-Kept browser url.error url.result url.address
        (clean_url (validate_pending browser url.request_id true t).0)
        (moved (validate_pending-wallet browser url.request_id true t) h)
  correlated-Kept browser url (t, false) h =
      moved (forward_of-wallet browser url.address url.request_id url.result url.error t) h

  handle_redirect-Kept :
      (browser : Browser) (t : Tab)
      → Kept crypto t
      → Kept crypto (handle_redirect crypto decode_uri config browser t)
  unfolding handle_redirect connect_callback
  handle_redirect-Kept browser t h =
      let r = restore crypto decode_uri config browser t in
      let hr = restore-Kept browser t h in
      if_both (Kept crypto) (not (has_result crypto decode_uri config t.url)) _ _ hr (
        if_both (Kept crypto) (is_sign_id t.url.request_id) _ _
          (signed_outcome-Kept browser t.url _
            (moved (check_sign_result-wallet browser config.sign_timeout r) hr))
          (correlated-Kept browser t.url _
            (moved (validate_pending-wallet browser t.url.request_id false t) h)))

  told-Kept : (r : Tab × Begun) → Kept crypto r.0 → Kept crypto (told crypto decode_uri config r).0
  told-Kept (t, Begun.returned k) h = h
  told-Kept (t, Begun.waiting) h = h
  told-Kept (t, Begun.redirected) h = h
  told-Kept (t, refused e) h = h

  -- A new page begins with nothing held.
  pub load-Kept :
      (browser : Browser) (t : Tab) → Kept crypto (load crypto decode_uri config browser t).0
  unfolding load
  load-Kept browser t =
      let fresh = with_wallet initial t in
      let h = handle_redirect-Kept browser fresh (initial-Consistent crypto) in
      if_both (λ (r : Tab × Option Begun). Kept crypto r.0) config.auto_connect _ _
        (told-Kept _ (begin_connect-Kept crypto config browser _ h)) h
