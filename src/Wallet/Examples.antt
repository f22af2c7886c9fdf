-- ===== src/Wallet/Examples.antt =====
-- src/adapter/wallet-adapter.ts: the theorems at concrete inputs, with a codec that keeps texts.
use kalvora_js.Common.{
  ℕ, zero, suc, ◌≡◌, ◌≢◌, ◌↔◌, refl, sym, ap, ◌∙◌, true, false, none, some, [], ◌∷◌, ◌++◌, Text,
  codes, ok, replicate, arith,
}
use kalvora_js.Common.Int.{pos, ◌-ℤ◌}
use kalvora_js.Js.{starts_with}
use kalvora_js.Validation.{is_base58}
use kalvora_js.Keys.{
  Crypto, hash_of, hash_letter, is_valid_wallet_key, wallet_key_parts, without_restriction,
  without_tags, type_and_rest, generate_address, split_last, get_hash_types, is_special,
  skip_separator, hash_types_from, create_hash_chain, chain_loop,
}
use kalvora_js.Wallet.{
  SignResult, sign, text, missing, connected, Params, connect_result, sent, Tab, Browser, Config,
  working, initial, no_params, resolve_wallet_address, validate_pending, check_pending, check_shape,
  is_stale, valid_key, persist, persist_key,
}
use kalvora_js.Wallet.Session.{
  begin_connect, begin_from, connect_by_link, request_id_of, join, joined,
}
use kalvora_js.Wallet.Callback.{handle_redirect, connect_callback, answered, answered_by_link}
use kalvora_js.Wallet.Events.{receive}
use kalvora_js.Bytes.{Bytes, IsBytes}
use kalvora_js.Wallet.Signature.{
  base64_letter, base64_value, value_or_zero, to_base64, from_base64, is_base64_text,
  expected_length, has_length, decode_signature,
}
use kalvora_js.Wallet.Signature.Decode.{decode_signature-to_base64}
use kalvora_js.Wallet.Signing.{
  result, nothing, start_signing, kind_of, sign_shape, check_live, check_id, check_signing,
  get_pending, signature_of, consume_broadcast_result,
}
use kalvora_js.Wallet.SignedOnce.{Accepted, consume_broadcast_result-once}
use kalvora_js.Wallet.Run.{here, next, begins, receives}
use kalvora_js.Wallet.Consistent.{Consistent}
use kalvora_js.Wallet.Consistent.Reach.{Reach-Consistent}
use kalvora_js.Wallet.Requests.{InTime, IsLive, validate_pending_iff}
use kalvora_js.Wallet.Requests.Used.{UsedUp, receive-UsedUp, connect_callback-UsedUp}
use kalvora_js.Wallet.Handoff.{answer_url, handoff}

abbrev crypto : Crypto
crypto = record {
  bs58_encode = λ bytes. bytes;
  bs58_decode = λ t. some t;
  hash = λ h bytes. hash_letter h ∷ bytes;
  utf8_decode = λ bytes. bytes;
}

abbrev decode_uri : Text → kalvora_js.Common.Option Text
decode_uri t = some t

abbrev config : Config
config = record {
  auto_connect = false;
  deep_link_url = codes "kalvora://";
  sign_timeout = pos 120_000;
  callback_url = codes "https://app";
}

abbrev browser : Browser
browser = record {
  injected = false;
  now = pos 1_000;
  local_storage = true;
  session = working;
  broadcast = true;
  uuid = codes "0f-1";
  location = codes "https://app";
}

-- The page a minute later.
abbrev later_on : Browser
later_on = record browser { now = pos 61_000 }

abbrev fresh : Tab
fresh = record {
  wallet = initial;
  stored = none;
  pending = none;
  signing = none;
  url = no_params;
  log = [];
}

abbrev key : Text
key = codes "A_c_" ++ replicate 32 b'7'

abbrev address : Text
address = b'c' ∷ replicate 32 b'7'

abbrev id : Text
id = codes "zr_0f1"

abbrev asking : Tab
asking = (begin_connect config browser fresh).0

key_ok : is_valid_wallet_key crypto key ≡ true
unfolding is_valid_wallet_key wallet_key_parts without_restriction starts_with type_and_rest
    without_tags hash_of is_base58
key_ok = refl

address_ok : resolve_wallet_address crypto key missing ≡ ok address
unfolding resolve_wallet_address generate_address split_last get_hash_types is_special starts_with
    without_restriction skip_separator hash_types_from hash_of create_hash_chain chain_loop
address_ok = refl

in_time : InTime later_on.now browser.now
unfolding ◌-ℤ◌
in_time = (omega arith, omega arith)

id_ok : request_id_of browser ≡ id
unfolding request_id_of
id_ok = refl

abbrev page : Tab
page =
    handle_redirect crypto decode_uri config later_on
      (record fresh { url = answer_url (request_id_of browser) key none })

-- The tab that asked, once the message of the other tab has come.
abbrev after : Tab
after =
    receive crypto decode_uri config later_on
      (connect_result (text key) missing (text (request_id_of browser))) asking

handoff_example :
    (page.log ≡ sent (connect_result (text key) missing (text (request_id_of browser))) ∷ [])
    × (after.wallet.state ≡ connected)
    × (after.wallet.public_key ≡ some key)
    × (after.wallet.address ≡ some address)
    × (after.pending ≡ none)
handoff_example =
    handoff crypto decode_uri config fresh fresh browser later_on later_on key address none refl
      refl refl (refl, (refl, (refl, (refl, tt)))) key_ok address_ok refl refl in_time refl

arrives : after.wallet.state ≡ connected
arrives =
    (handoff crypto decode_uri config fresh fresh browser later_on later_on key address none refl
      refl refl (refl, (refl, (refl, (refl, tt)))) key_ok address_ok refl refl in_time refl).1

not_yet : asking.wallet.state ≢ connected
unfolding begin_connect begin_from connect_by_link
not_yet e = cc e

receive-UsedUp_example :
    UsedUp crypto decode_uri config later_on (text key) (text (request_id_of browser)) asking after
receive-UsedUp_example =
    receive-UsedUp crypto decode_uri config later_on (text key) missing
      (text (request_id_of browser)) asking not_yet arrives

validate_pending_iff_example :
    ((validate_pending later_on (some id) true asking).1 ≡ true) ↔ IsLive later_on id asking
validate_pending_iff_example = validate_pending_iff later_on id true asking

abbrev url : Params
url = answer_url id key none

came_back : (connect_callback crypto decode_uri config later_on url asking).wallet.state ≡ connected
unfolding connect_callback validate_pending check_pending check_shape is_stale begin_connect
    begin_from connect_by_link request_id_of answered_by_link answered valid_key is_valid_wallet_key
    wallet_key_parts without_restriction starts_with type_and_rest without_tags hash_of is_base58
    resolve_wallet_address generate_address split_last get_hash_types is_special skip_separator
    hash_types_from create_hash_chain chain_loop join joined persist persist_key ◌-ℤ◌
came_back = refl

connect_callback-UsedUp_example :
    (i k : Text) × (url.request_id ≡ some i)
    × (url.error ≡ none)
    × (url.result ≡ some k)
    × (is_valid_wallet_key crypto k ≡ true)
    × IsLive later_on i asking
    × ((connect_callback crypto decode_uri config later_on url asking).pending ≡ none)
connect_callback-UsedUp_example =
    connect_callback-UsedUp crypto decode_uri config later_on url asking not_yet came_back

Reach-Consistent_example : Consistent crypto after.wallet
Reach-Consistent_example = Reach-Consistent crypto decode_uri config fresh after refl (
    next (next here (begins browser fresh))
      (receives later_on (connect_result (text key) missing (text (request_id_of browser))) asking))

small : (n : ℕ) → IsBytes (replicate n 7)
small zero = tt
small (suc n) = (omega arith, small n)

abbrev signature : Bytes
signature = replicate 64 7

decode_signature-to_base64_example :
    decode_signature decode_uri (to_base64 signature) (some key) ≡ ok signature
unfolding expected_length has_length starts_with without_restriction
decode_signature-to_base64_example =
    decode_signature-to_base64 decode_uri (to_base64 signature) (some key) 7 (replicate 63 7) refl
      (small 64) refl

-- The tab that has asked for a signature.
abbrev signing : Tab
signing = (start_signing browser sign key (codes "https://app") (codes "txn") fresh).0

abbrev accepted : SignResult
accepted = record {
  signature = signature;
  request_id = codes "zr_sign_0f1";
  operation = sign;
  public_key = some key;
}

taken :
    (consume_broadcast_result decode_uri later_on
      (to_base64 signature)
      (codes "zr_sign_0f1")
      (pos 120_000)
      signing).1
    ≡ result accepted
unfolding consume_broadcast_result get_pending check_signing check_id check_live sign_shape kind_of
    starts_with is_stale ◌-ℤ◌ start_signing signature_of decode_signature to_base64 base64_letter
    from_base64 base64_value value_or_zero is_base64_text expected_length has_length
    without_restriction
taken = refl

consume_broadcast_result-once_example :
    let after =
      (consume_broadcast_result decode_uri later_on
        (to_base64 signature)
        (codes "zr_sign_0f1")
        (pos 120_000)
        signing).0 in
    Accepted decode_uri later_on (codes "zr_sign_0f1") (pos 120_000) signing accepted after
    × (consume_broadcast_result decode_uri later_on
          (codes "AAAA")
          (codes "zr_sign_0f1")
          (pos 120_000)
          after
        ≡ (after, nothing))
consume_broadcast_result-once_example =
    consume_broadcast_result-once decode_uri later_on (to_base64 signature) (codes "zr_sign_0f1")
      (pos 120_000) signing accepted later_on (codes "AAAA") taken
