-- ===== src/Wallet/Session.antt =====
-- src/adapter/wallet-adapter.ts: the methods and the handlers of `KalvoraWalletAdapter`. A method that
-- awaits the provider is two steps: up to the call, and from its answer on. A handler of the page's
-- own runs as the next step.
use kalvora_js.Common.{
  true, false, Option, none, some, List, [], ◌∷◌, ◌++◌, Text, codes, Result, ok, err, if◌then◌else◌,
}
use kalvora_js.Keys.{Crypto}
use kalvora_js.Wallet.{
  Field, text, missing, Stored, object, State, disconnected, connecting, connected, Mode, embedded,
  manual, Signer, wallet_signer, deep_link_signer, SignResult, PendingConnect, WalletError,
  by_provider, no_accounts, invalid_key, no_session, session_refused, connect, disconnect, error,
  navigated, Wallet, Tab, Storage, absent, refusing, working, Browser, Config, emit, callback_of,
  persist, clear_persistence, valid_key, resolve_wallet_address,
}
use kalvora_js.Wallet.Signing.{without_dashes}

abbrev pub with_wallet : Wallet → Tab → Tab
with_wallet w t = record t { wallet = w }

abbrev pub with_state : State → Tab → Tab
with_state s t = record t { wallet = record t.wallet { state = s } }

-- The fields that a connection sets.
unfoldable pub joined : Wallet → Text → Text → Mode → Signer → Wallet
joined w key address mode signer = record w {
  state = connected;
  public_key = some key;
  address = some address;
  signer = some signer;
  mode = some mode;
}

-- The connection is made, stored and told.
unfoldable pub join : Browser → Text → Text → Mode → Signer → Tab → Tab
join browser key address mode signer t =
    persist browser (with_wallet (joined t.wallet key address mode signer) t)

unfoldable pub left : Wallet → Wallet
left w = record w {
  state = disconnected;
  public_key = none;
  address = none;
  signer = none;
  mode = none;
}

pub data Begun : Type 0 where
  returned : Text → Begun
  -- The provider has been asked for its accounts, or the page navigates away.
  waiting redirected : Begun
  refused : WalletError → Begun

unfoldable pub request_id_of : Browser → Text
request_id_of browser = codes "zr_" ++ without_dashes browser.uuid

abbrev pub pending_of : Browser → Stored PendingConnect
pending_of browser = object (record {
  kind = text (codes "connect");
  request_id = text (request_id_of browser);
  timestamp = Field.number browser.now;
})

unfoldable pub connect_by_link : Config → Browser → Storage → Tab → Tab × Begun
connect_by_link config browser absent t = (with_state disconnected t, refused no_session)
connect_by_link config browser refusing t = (t, refused session_refused)
connect_by_link config browser working t = (
  record t {
    pending = some (pending_of browser);
    log =
        navigated (codes "connect") (
          (codes "callback", callback_of config browser)
          ∷ (codes "requestId", request_id_of browser)
          ∷ [])
        ∷ t.log;
  },
  redirected,
)

abbrev pub held_key : Wallet → Option Text
held_key w = elim w.state [ connected ↦ w.public_key | _ ↦ none ]

unfoldable pub begin_from : Config → Browser → Tab → Option Text → Tab × Begun
begin_from config browser t (some key) = (t, returned key)
begin_from config browser t none =
    if browser.injected
    then (record t { wallet = record t.wallet { state = connecting; provider = true } }, waiting)
    else connect_by_link config browser browser.session (with_state connecting t)

-- `connect` up to its first wait.
unfoldable pub begin_connect : Config → Browser → Tab → Tab × Begun
begin_connect config browser t = begin_from config browser t (held_key t.wallet)

-- `disconnect`. The provider is told, and its errors are ignored.
unfoldable pub disconnect_tab : Browser → Tab → Tab
disconnect_tab browser t =
    emit disconnect
      (clear_persistence browser (with_wallet (record (left t.wallet) { provider = false }) t))

unfoldable pub consume_pending_sign : Tab → Tab × Option SignResult
consume_pending_sign t =
    (with_wallet (record t.wallet { pending_sign = none }) t, t.wallet.pending_sign)

abbrev pub link_signer : Config → Browser → Text → Signer
link_signer config browser key =
    deep_link_signer key config.deep_link_url (callback_of config browser)

pub record Accounts : Type 0 where
  pub accounts : List Field
  pub addresses : List Field

abbrev pub head_or_missing : List Field → Field
head_or_missing [] = missing
head_or_missing (f ∷ fs) = f

module _ (crypto : Crypto) (config : Config) where
  -- `connectManual`; the error that it throws, if it throws one. The key is set before its address.
  unfoldable pub connect_manual : Browser → Text → Tab → Tab × Option WalletError
  connect_manual browser key t = elim (valid_key crypto (text key)) [
    | none ↦ (t, some invalid_key)
    | some valid ↦ elim (resolve_wallet_address crypto key missing) [
      | err e ↦ (with_wallet (record t.wallet { public_key = some key }) t, some e)
      | ok address ↦ (
        emit (connect key address manual)
            (join browser key address manual (link_signer config browser key) t),
        none,
      )
    ]
  ]

  abbrev pub failed : WalletError → Tab → Tab × Result WalletError Text
  failed e t = (emit (error e) (with_state disconnected t), err e)

  abbrev pub first_account : Browser → Field → Field → Tab → Tab × Result WalletError Text
  first_account browser account supplied t = elim (valid_key crypto account) [
    | none ↦ failed invalid_key t
    | some key ↦ elim (resolve_wallet_address crypto key supplied) [
      | err e ↦ failed e t
      | ok address ↦ (
        emit (connect key address embedded)
            (join browser key address embedded (wallet_signer key) t),
        ok key,
      )
    ]
  ]

  abbrev pub chosen_account :
      Browser → List Field → List Field → Tab → Tab × Result WalletError Text
  chosen_account browser [] addresses t = failed no_accounts t
  chosen_account browser (account ∷ others) addresses t =
      first_account browser account (head_or_missing addresses) t

  -- The rest of `connect`, once the provider has answered.
  unfoldable pub accounts_answered :
      Browser → Result Text Accounts → Tab → Tab × Result WalletError Text
  accounts_answered browser (err e) t = failed (by_provider e) t
  accounts_answered browser (ok answer) t =
      chosen_account browser answer.accounts answer.addresses t
