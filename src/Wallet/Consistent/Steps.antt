-- ===== src/Wallet/Consistent/Steps.antt =====
-- src/adapter/wallet-adapter.ts: each method and handler keeps key, address, signer and mode together.
use kalvora_js.Common.{
  ◌≡◌, ◌≢◌, refl, true, Option, none, some, List, [], ◌∷◌, Text, Result, ok, err, Result-cases,
  Option-cases, if_both, inl, inr,
}
use kalvora_js.Keys.{Crypto, is_valid_wallet_key}
use kalvora_js.Wallet.{
  Field, text, missing, disconnected, connecting, Mode, embedded, deeplink, manual, unknown,
  wallet_signer, WalletError, Tab, Storage, absent, refusing, working, Browser, Config,
  clear_persistence, callback_of, valid_key, resolve_wallet_address,
}
use kalvora_js.Wallet.Session.{
  Begun, with_state, join, left, held_key, connect_by_link, begin_from, begin_connect,
  disconnect_tab, link_signer, connect_manual, failed, first_account, chosen_account,
  accounts_answered, Accounts, head_or_missing,
}
use kalvora_js.Wallet.Consistent.{
  Fits, Consistent, nothing_held, valid_key-some, resolve-generate_address, resolve_missing,
  join-Consistent, restate-Consistent, provider-Consistent,
}

module _ (crypto : Crypto) where
  -- The wallet of a tab.
  abbrev pub Kept : Tab → Type 0
  Kept t = Consistent crypto t.wallet

  module _ (config : Config) where
    connect_by_link-Kept :
        (browser : Browser) (storage : Storage) (t : Tab)
        → Kept t
        → Kept (connect_by_link config browser storage t).0
    unfolding connect_by_link
    connect_by_link-Kept browser absent t h =
        restate-Consistent crypto t.wallet disconnected (λ e. cc e) h
    connect_by_link-Kept browser refusing t h = h
    connect_by_link-Kept browser working t h = h

    begin_from-Kept :
        (browser : Browser) (t : Tab) (o : Option Text)
        → Kept t
        → Kept (begin_from config browser t o).0
    unfolding begin_from
    begin_from-Kept browser t (some key) h = h
    begin_from-Kept browser t none h =
        let h' = restate-Consistent crypto t.wallet connecting (λ e. cc e) h in
        if_both (λ (r : Tab × Begun). Kept r.0) browser.injected _ _
          (provider-Consistent crypto (record t.wallet { state = connecting }) true h')
          (connect_by_link-Kept browser browser.session (with_state connecting t) h')

    pub begin_connect-Kept :
        (browser : Browser) (t : Tab) → Kept t → Kept (begin_connect config browser t).0
    unfolding begin_connect
    begin_connect-Kept browser t h = begin_from-Kept browser t (held_key t.wallet) h

    pub disconnect_tab-Kept : (browser : Browser) (t : Tab) → Kept (disconnect_tab browser t)
    unfolding disconnect_tab clear_persistence left
    disconnect_tab-Kept browser t = nothing_held refl refl refl refl (λ e. cc e)

    pub link-Fits :
        (browser : Browser) (key : Text) (mode : Mode)
        → mode ≢ embedded
        → Fits mode key (link_signer config browser key)
    link-Fits browser key embedded h = absurd (h refl)
    link-Fits browser key deeplink h = (config.deep_link_url, callback_of config browser, refl)
    link-Fits browser key manual h = (config.deep_link_url, callback_of config browser, refl)
    link-Fits browser key unknown h = (config.deep_link_url, callback_of config browser, refl)

    pub join_link-Kept :
        (browser : Browser) (t : Tab) (key address : Text) (f : Field) (mode : Mode)
        → mode ≢ embedded
        → is_valid_wallet_key crypto key ≡ true
        → resolve_wallet_address crypto key f ≡ ok address
        → Kept (join browser key address mode (link_signer config browser key) t)
    join_link-Kept browser t key address f mode h valid made =
        join-Consistent crypto browser t key address mode (link_signer config browser key) valid
          (resolve-generate_address crypto key f address made) (link-Fits browser key mode h)

    pub join_wallet-Kept :
        (browser : Browser) (t : Tab) (key address : Text) (f : Field)
        → is_valid_wallet_key crypto key ≡ true
        → resolve_wallet_address crypto key f ≡ ok address
        → Kept (join browser key address embedded (wallet_signer key) t)
    join_wallet-Kept browser t key address f valid made =
        join-Consistent crypto browser t key address embedded (wallet_signer key) valid
          (resolve-generate_address crypto key f address made) refl

    pub connect_manual-Kept :
        (browser : Browser) (key : Text) (t : Tab)
        → Kept t
        → Kept (connect_manual crypto config browser key t).0
    unfolding connect_manual
    connect_manual-Kept browser key t h = elim (Option-cases (valid_key crypto (text key))) [
      | inl bad ↦ rw (bad, connect_manual) h
      | inr (k, good) ↦
          let (is, valid) = valid_key-some crypto (text key) k good in
          let valid' : is_valid_wallet_key crypto key ≡ true = cc (is, valid) in
          let (address, made) = resolve_missing crypto key valid' in
          rw (good, connect_manual)
            (rw made (join_link-Kept browser t key address missing manual (λ e. cc e) valid' made))
    ]

    failed-Kept : (e : WalletError) (t : Tab) → Kept t → Kept (failed crypto config e t).0
    failed-Kept e t h = restate-Consistent crypto t.wallet disconnected (λ e. cc e) h

    first_account-Kept :
        (browser : Browser) (account supplied : Field) (t : Tab)
        → Kept t
        → Kept (first_account crypto config browser account supplied t).0
    first_account-Kept browser account supplied t h =
        elim (Option-cases (valid_key crypto account)) [
          | inl bad ↦ rw (bad, first_account) (failed-Kept WalletError.invalid_key t h)
          | inr (key, good) ↦
              let (_, valid) = valid_key-some crypto account key good in
              elim (Result-cases (resolve_wallet_address crypto key supplied)) [
                | inl (address, made) ↦
                    rw (good, first_account)
                      (rw made (join_wallet-Kept browser t key address supplied valid made))
                | inr (e, refused) ↦ rw (good, first_account) (rw refused (failed-Kept e t h))
              ]
        ]

    chosen_account-Kept :
        (browser : Browser) (accounts addresses : List Field) (t : Tab)
        → Kept t
        → Kept (chosen_account crypto config browser accounts addresses t).0
    chosen_account-Kept browser [] addresses t h = failed-Kept WalletError.no_accounts t h
    chosen_account-Kept browser (account ∷ others) addresses t h =
        first_account-Kept browser account (head_or_missing addresses) t h

    pub accounts_answered-Kept :
        (browser : Browser) (answer : Result Text Accounts) (t : Tab)
        → Kept t
        → Kept (accounts_answered crypto config browser answer t).0
    unfolding accounts_answered
    accounts_answered-Kept browser (err e) t h = failed-Kept (WalletError.by_provider e) t h
    accounts_answered-Kept browser (ok answer) t h =
        chosen_account-Kept browser answer.accounts answer.addresses t h
