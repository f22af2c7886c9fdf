-- ===== src/Wallet.antt =====
-- src/adapter/wallet-adapter.ts: the state of a `KalvoraWalletAdapter`, its browser tab, and the
-- helpers that its methods share. What a method calls of the browser enters as the record `Browser`.
pub mod Signature
pub mod Signing
pub mod Session
pub mod Callback
pub mod Events
pub mod Run
pub mod Requests
pub mod Handoff
pub mod SignedOnce
pub mod Consistent
mod Examples
use kalvora_js.Common.{
  ℕ, zero, suc, Bool, true, false, not, ◌&&◌, ◌||◌, Option, none, some, List, [], ◌∷◌, ◌++◌, Text,
  codes, text_eq, Result, ok, err, ◌>>=◌, if◌then◌else◌,
}
use kalvora_js.Common.Int.{ℤ, pos, negsuc, ◌-ℤ◌, ltb_ℤ}
use kalvora_js.Bytes.{Bytes}
use kalvora_js.Keys.{Crypto, KeyError, generate_address, is_valid_wallet_key}

-- A value that comes from outside, as the code tells values apart: `missing` is `undefined` or `null`,
-- `falsy` is `false` or `NaN`, `other` everything else. A number is whole, as `Date.now()` gives it.
pub data Field : Type 0 where
  text : Text → Field
  number : ℤ → Field
  missing falsy other : Field

-- What `JSON.parse` makes of an item of the storage.
pub data Stored (A : Type 0) : Type 0 where
  unparsable null_value : Stored A
  object : A → Stored A

pub data State : Type 0 where
  disconnected connecting connected : State

-- A stored mode may be any text: `unknown` is one that is none of the three.
pub data Mode : Type 0 where
  embedded deeplink manual unknown : Mode

pub data Signer : Type 0 where
  wallet_signer : Text → Signer
  deep_link_signer : Text → Text → Text → Signer

pub data SignKind : Type 0 where
  sign sign_message : SignKind

pub record SignResult : Type 0 where
  pub signature : Bytes
  pub request_id : Text
  pub operation : SignKind
  pub public_key : Option Text

pub record PendingConnect : Type 0 where
  pub kind : Field
  pub request_id : Field
  pub timestamp : Field

pub record PendingSign : Type 0 where
  pub kind : Field
  pub request_id : Field
  pub timestamp : Field
  pub public_key : Option Text

pub record Connection : Type 0 where
  pub public_key : Field
  pub address : Field
  pub mode : Field

pub data WalletError : Type 0 where
  by_provider by_wallet : Text → WalletError
  by_keys : KeyError → WalletError
  no_accounts invalid_key address_mismatch no_session session_refused : WalletError
  bad_encoding bad_base64 : WalletError
  -- With the length that is expected, where there is one.
  bad_length : Option ℕ → WalletError

pub data Event : Type 0 where
  connect : Text → Text → Mode → Event
  disconnect : Event
  error : WalletError → Event
  sign_result : SignResult → Event
  sign_error : WalletError → Event

-- The messages between tabs, their fields as they come.
pub data Message : Type 0 where
  connect_result : (public_key address request_id : Field) → Message
  connect_error sign_failed : (request_id message : Field) → Message
  signed : (encoded request_id : Field) → Message

-- `later` is an event that a timer of no delay emits.
pub data Effect : Type 0 where
  emitted later : Event → Effect
  sent : Message → Effect
  navigated : Text → List (Text × Text) → Effect

-- The parameters of a call-back, `none` where there is none or it is empty.
pub record Params : Type 0 where
  pub result : Option Text
  pub request_id : Option Text
  pub error : Option Text
  pub address : Option Text

abbrev pub no_params : Params
no_params = record { result = none; request_id = none; error = none; address = none }

pub record Wallet : Type 0 where
  pub state : State
  pub public_key : Option Text
  pub address : Option Text
  pub signer : Option Signer
  pub provider : Bool
  pub mode : Option Mode
  pub pending_sign : Option SignResult

-- A tab: the adapter, the browser's items that it uses, and what it has done, the last thing first.
-- `stored` is shared by all tabs of the page's origin, the two pending requests are the tab's own.
pub record Tab : Type 0 where
  pub wallet : Wallet
  pub stored : Option (Stored Connection)
  pub pending : Option (Stored PendingConnect)
  pub signing : Option (Stored PendingSign)
  pub url : Params
  pub log : List Effect

pub data Storage : Type 0 where
  absent refusing working : Storage

-- What the browser answers during a call.
pub record Browser : Type 0 where
  -- A provider with the wallet's flag is injected.
  pub injected : Bool
  pub now : ℤ
  pub local_storage : Bool
  pub session : Storage
  pub broadcast : Bool
  pub uuid : Text
  -- The page's address without the parameters of a call-back.
  pub location : Text

pub record Config : Type 0 where
  pub auto_connect : Bool
  pub deep_link_url : Text
  pub sign_timeout : ℤ
  pub callback_url : Text

abbrev pub initial : Wallet
initial = record {
  state = disconnected;
  public_key = none;
  address = none;
  signer = none;
  provider = false;
  mode = none;
  pending_sign = none;
}

abbrev pub connect_ttl : ℤ
connect_ttl = pos 600_000

-- `-MAX_CLOCK_SKEW_MS`
abbrev pub minus_clock_skew : ℤ
minus_clock_skew = negsuc 59_999

abbrev pub is_working : Storage → Bool
is_working working = true
is_working _ = false

abbrev pub emit : Event → Tab → Tab
emit event t = record t { log = emitted event ∷ t.log }

abbrev pub emit_later : Event → Tab → Tab
emit_later event t = record t { log = later event ∷ t.log }

-- `_broadcastMessage`: nothing is sent where there are no channels.
abbrev pub broadcast_message : Browser → Message → Tab → Tab
broadcast_message browser message t =
    if browser.broadcast then record t { log = sent message ∷ t.log } else t

abbrev pub clean_url : Tab → Tab
clean_url t = record t { url = no_params }

unfoldable pub callback_of : Config → Browser → Text
callback_of config browser = elim config.callback_url [ [] ↦ browser.location | c ∷ u ↦ c ∷ u ]

abbrev pub mode_text : Mode → Field
mode_text embedded = text (codes "embedded")
mode_text deeplink = text (codes "deeplink")
mode_text manual = text (codes "manual")
mode_text unknown = other

abbrev pub or_missing : Option Text → Field
or_missing none = missing
or_missing (some t) = text t

abbrev pub connection_of : Wallet → Text → Connection
connection_of w key = record {
  public_key = text key;
  address = or_missing w.address;
  mode = elim w.mode [ none ↦ missing | some mode ↦ mode_text mode ];
}

unfoldable pub persist_key : Browser → Tab → Option Text → Tab
persist_key browser t none = t
persist_key browser t (some key) =
    if browser.local_storage
    then record t { stored = some (object (connection_of t.wallet key)) }
    else t

unfoldable pub persist : Browser → Tab → Tab
persist browser t = persist_key browser t t.wallet.public_key

unfoldable pub clear_persistence : Browser → Tab → Tab
clear_persistence browser t = record t {
  stored = if browser.local_storage then none else t.stored;
  pending = if is_working browser.session then none else t.pending;
}

-- The fields of a request that has the shape of one.
abbrev pub shape_of : Field → Field → Field → Option (Text × ℤ)
shape_of (text kind) (text (c ∷ id)) (number time) =
    if text_eq kind (codes "connect") then some (c ∷ id, time) else none
shape_of _ _ _ = none

unfoldable pub is_stale : ℤ → ℤ → ℤ → Bool
is_stale ttl now time = ltb_ℤ ttl (now -ℤ time) || ltb_ℤ (now -ℤ time) minus_clock_skew

abbrev pub forget_pending : Tab → Tab
forget_pending t = record t { pending = none }

unfoldable pub check_shape : Browser → Text → Bool → Tab → Option (Text × ℤ) → Tab × Bool
check_shape browser request_id consume t none = (forget_pending t, false)
check_shape browser request_id consume t (some (id, time)) =
    if is_stale connect_ttl browser.now time
    then (forget_pending t, false)
    else if not (text_eq id request_id)
    then (t, false)
    else (if consume then forget_pending t else t, true)

unfoldable pub check_pending :
    Browser → Text → Bool → Tab → Option (Stored PendingConnect) → Tab × Bool
check_pending browser request_id consume t none = (t, false)
check_pending browser request_id consume t (some null_value) = (t, false)
check_pending browser request_id consume t (some unparsable) = (forget_pending t, false)
check_pending browser request_id consume t (some (object p)) =
    check_shape browser request_id consume t (shape_of p.kind p.request_id p.timestamp)

-- `_validatePendingConnectRequest`
unfoldable pub validate_pending : Browser → Option Text → Bool → Tab → Tab × Bool
validate_pending browser none consume t = (t, false)
validate_pending browser (some []) consume t = (t, false)
validate_pending browser (some (c ∷ id)) consume t =
    if is_working browser.session
    then check_pending browser (c ∷ id) consume t t.pending
    else (t, false)

module _ (crypto : Crypto) where
  unfoldable pub valid_key : Field → Option Text
  valid_key (text key) = if is_valid_wallet_key crypto key then some key else none
  valid_key _ = none

  abbrev pub derived : Text → Result WalletError Text
  derived key = elim (generate_address crypto key) [ ok a ↦ ok a | err e ↦ err (by_keys e) ]

  abbrev pub same_address : Field → Text → Result WalletError Text
  same_address missing a = ok a
  same_address (text []) a = ok a
  same_address (text (c ∷ s)) a = if text_eq (c ∷ s) a then ok (c ∷ s) else err address_mismatch
  same_address _ a = err address_mismatch

  unfoldable pub resolve_wallet_address : Text → Field → Result WalletError Text
  resolve_wallet_address key supplied = derived key >>= same_address supplied
