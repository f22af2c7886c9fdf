-- ===== src/Wallet/Run.antt =====
-- src/adapter/wallet-adapter.ts and src/adapter/wallet-signer.ts: what may happen to a tab, in any
-- order: its methods, the answers that they wait for, messages, events of the provider, new pages,
-- and what other tabs of the origin write into the storage that they share.
use kalvora_js.Common.{Option, Text, Result}
use kalvora_js.Bytes.{Bytes}
use kalvora_js.Keys.{Crypto}
use kalvora_js.Wallet.{Field, Stored, SignKind, Connection, Params, Message, Tab, Browser, Config}
use kalvora_js.Wallet.Signing.{start_signing}
use kalvora_js.Wallet.Session.{
  Accounts, begin_connect, connect_manual, disconnect_tab, consume_pending_sign, accounts_answered,
}
use kalvora_js.Wallet.Callback.{load}
use kalvora_js.Wallet.Events.{receive, provider_connected, provider_disconnected}

module _ (crypto : Crypto) (decode_uri : Text → Option Text) (config : Config) where
  -- Each with the browser as it is at that time.
  pub data Step : Tab → Tab → Type 0 where
    loads :
        (browser : Browser) (url : Params) (t : Tab)
        → Step t (load crypto decode_uri config browser (record t { url = url })).0
    begins : (browser : Browser) (t : Tab) → Step t (begin_connect config browser t).0
    answers :
        (browser : Browser) (answer : Result Text Accounts) (t : Tab)
        → Step t (accounts_answered crypto config browser answer t).0
    joins_manually :
        (browser : Browser) (key : Text) (t : Tab)
        → Step t (connect_manual crypto config browser key t).0
    leaves : (browser : Browser) (t : Tab) → Step t (disconnect_tab browser t)
    receives :
        (browser : Browser) (message : Message) (t : Tab)
        → Step t (receive crypto decode_uri config browser message t)
    provider_joins :
        (browser : Browser) (account supplied : Field) (t : Tab)
        → Step t (provider_connected crypto decode_uri config browser account supplied t)
    provider_leaves : (browser : Browser) (t : Tab) → Step t (provider_disconnected browser t)
    takes_result : (t : Tab) → Step t (consume_pending_sign t).0
    signs :
        (browser : Browser) (kind : SignKind) (key callback : Text) (bytes : Bytes) (t : Tab)
        → Step t (start_signing browser kind key callback bytes t).0
    other_tab_stores :
        (stored : Option (Stored Connection)) (t : Tab) → Step t (record t { stored = stored })

  pub data Reach (t : Tab) : Tab → Type 0 where
    here : Reach t t
    next : {u v : Tab} → Reach t u → Step u v → Reach t v
