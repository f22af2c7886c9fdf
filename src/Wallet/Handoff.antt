-- ===== src/Wallet/Handoff.antt =====
-- src/adapter/wallet-adapter.ts: a wallet app that answers into a new tab connects the tab that asked.
use mathlib.Core.Path.{ap₂}
use kalvora_js.Common.{
  ◌≡◌, refl, ap, ◌∙◌, Bool, true, false, ◌&&◌, ◌||◌, Option, none, some, [], ◌∷◌, ◌++◌, Text, codes,
  if◌then◌else◌, ◌==◌, leb, All, ok, Bool-cases, if_both, inl, inr, arith,
}
use kalvora_js.Js.{starts_with}
use kalvora_js.Keys.{Crypto, is_valid_wallet_key}
use kalvora_js.Wallet.{
  Field, text, connected, connecting, sent, working, Params, connect_result, Tab, Browser, Config,
  is_working, valid_key, resolve_wallet_address, validate_pending, check_pending, emit, connect,
  deeplink, forget_pending,
}
use kalvora_js.Wallet.Signing.{without_dashes}
use kalvora_js.Wallet.Session.{
  held_key, begin_connect, begin_from, connect_by_link, request_id_of, pending_of, join, joined,
  link_signer, waiting, with_state, with_wallet,
}
use kalvora_js.Wallet.Callback.{
  handle_redirect, connect_callback, correlated, forward, forward_of, is_sign_id, or_text,
}
use kalvora_js.Wallet.Events.{is_connected, joined_by, passed_on, receive}
use kalvora_js.Wallet.Consistent.{persist-wallet}
use kalvora_js.Wallet.Requests.{InTime, IsLive, validate_pending_yes, live_yes}
use kalvora_js.Wallet.Requests.Used.{persist-pending}

-- A hexadecimal digit of lower case, or a dash: what `crypto.randomUUID` is made of.
abbrev pub IsUuid : Text → Type 0
IsUuid uuid =
    All (λ c. ((leb b'0' c && leb c b'9') || (leb b'a' c && leb c b'f') || c == b'-') ≡ true) uuid

hex_start :
    (uuid : Text)
    → IsUuid uuid
    → (starts_with (codes "sign_") (without_dashes uuid) ≡ false)
      × (starts_with (codes "msg_") (without_dashes uuid) ≡ false)
unfolding starts_with
hex_start [] h = (refl, refl)
hex_start (c ∷ uuid) (hex, h) = elim (Bool-cases (c == b'-')) [
  | inl dash ↦ rw dash (hex_start uuid h)
  | inr digit ↦
      let not_s : (b's' == c) ≡ false = ground arith in
      let not_m : (b'm' == c) ≡ false = ground arith in rw digit (rw (not_s, not_m) (refl, refl))
]

-- The identifier of a request to connect is not taken for one of a request to sign.
not_sign_id :
    (uuid : Text) → IsUuid uuid → is_sign_id (some (codes "zr_" ++ without_dashes uuid)) ≡ false
unfolding starts_with
not_sign_id uuid h = let (not_sign, not_msg) = hex_start uuid h in rw (not_sign, not_msg) refl

-- What the wallet app sends the user back with.
abbrev pub answer_url : Text → Text → Option Text → Params
answer_url id key supplied = record {
  result = some key;
  request_id = some id;
  error = none;
  address = supplied;
}

no_request :
    (browser : Browser) (id : Text) (t : Tab)
    → t.pending ≡ none
    → validate_pending browser (some id) false t ≡ (t, false)
unfolding validate_pending check_pending
no_request browser [] t h = refl
no_request browser (c ∷ id) t h =
    if_both (λ (r : Tab × Bool). r ≡ (t, false)) (is_working browser.session) _ _
      (ap (check_pending browser (c ∷ id) false t) h) refl

module _ (crypto : Crypto) (decode_uri : Text → Option Text) (config : Config) where
  begin_link :
      (browser : Browser) (t : Tab)
      → browser.injected ≡ false
      → browser.session ≡ working
      → let after = (begin_from config browser t none).0 in
        (after.wallet.state ≡ connecting) × (after.pending ≡ some (pending_of browser))
  unfolding begin_from connect_by_link
  begin_link browser t away works =
      let asked = connect_by_link config browser browser.session (with_state connecting t) in
      let by : begin_from config browser t none ≡ asked =
        ap
          (λ b.
            if b
            then (
              record t { wallet = record t.wallet { state = connecting; provider = true } },
              waiting,
            )
            else asked)
          away in
      let linked : asked ≡ connect_by_link config browser working (with_state connecting t) =
        ap (λ s. connect_by_link config browser s (with_state connecting t)) works in
      (ap (λ r. r.0.wallet.state) (by ∙ linked), ap (λ r. r.0.pending) (by ∙ linked))

  request_of_tab :
      (browser : Browser) (t : Tab)
      → held_key t.wallet ≡ none
      → browser.injected ≡ false
      → browser.session ≡ working
      → let after = (begin_connect config browser t).0 in
        (after.wallet.state ≡ connecting) × (after.pending ≡ some (pending_of browser))
  unfolding begin_connect
  request_of_tab browser t free away works =
      let (state, pending) = begin_link browser t away works in
      (
        ap (λ o. (begin_from config browser t o).0.wallet.state) free ∙ state,
        ap (λ o. (begin_from config browser t o).0.pending) free ∙ pending,
      )

  valid_text :
      (key : Text) → is_valid_wallet_key crypto key ≡ true → valid_key crypto (text key) ≡ some key
  unfolding valid_key
  valid_text key h = rw h refl

  -- The page with the call-back passes it on.
  passes_on :
      (browser : Browser) (t : Tab) (id key : Text) (supplied : Option Text)
      → is_sign_id (some id) ≡ false
      → is_valid_wallet_key crypto key ≡ true
      → t.pending ≡ none
      → browser.broadcast ≡ true
      → (handle_redirect crypto decode_uri config browser
          (record t { url = answer_url id key supplied })).log
        ≡ sent (connect_result (text key) (or_text supplied) (text id)) ∷ t.log
  unfolding handle_redirect connect_callback forward forward_of
  passes_on browser t id key supplied not_sign valid free channel =
      let url = answer_url id key supplied in
      let page = record t { url = url } in
      let message = connect_result (text key) (or_text supplied) (text id) in
      rw not_sign (
        ap (λ r. (correlated crypto decode_uri config browser url r).log)
          (no_request browser id page free)
        ∙ rw (valid_text key valid, forward_of)
            (ap (λ b. (if b then record page { log = sent message ∷ t.log } else page).log)
              channel))

  passed_on_joins :
      (browser : Browser) (id key address : Text) (supplied : Field) (u : Tab)
      → is_valid_wallet_key crypto key ≡ true
      → resolve_wallet_address crypto key supplied ≡ ok address
      → IsLive browser id u
      → passed_on crypto decode_uri config browser (text key) supplied (text id) u
        ≡ emit
            (connect key address deeplink)
            (join browser key address deeplink (link_signer config browser key) (forget_pending u))
  passed_on_joins browser id key address supplied u valid made live =
      let yes = live_yes browser id true u live in
      let (_, gone) = validate_pending_yes browser id true u yes in
      let both : validate_pending browser (some id) true u ≡ (forget_pending u, true) =
        ap₂ (λ (v : Tab) (b : Bool). (v, b)) gone yes in
      rw (valid_text key valid, passed_on)
        (ap (joined_by crypto decode_uri config browser key supplied) both
          ∙ rw (made, joined_by) refl)

  -- A request for a connection that is made in one tab is answered into another: the page of the other
  -- tab sends one message, and this message connects the tab that asked, with the key, its address and
  -- no pending request left. This is so where the key is valid and the address is the key's or left
  -- out, the other tab holds no request of its own, both tabs have channels and a storage that works,
  -- the request is in time and its identifier is made of a UUID.
  pub handoff :
      (asking answering : Tab) (at_start at_answer at_end : Browser) (key address : Text)
      (supplied : Option Text)
      → held_key asking.wallet ≡ none
      → at_start.injected ≡ false
      → at_start.session ≡ working
      → IsUuid at_start.uuid
      → is_valid_wallet_key crypto key ≡ true
      → resolve_wallet_address crypto key (or_text supplied) ≡ ok address
      → answering.pending ≡ none
      → at_answer.broadcast ≡ true
      → InTime at_end.now at_start.now
      → at_end.session ≡ working
      → let id = request_id_of at_start in
        let message = connect_result (text key) (or_text supplied) (text id) in
        let page =
          handle_redirect crypto decode_uri config at_answer
            (record answering { url = answer_url id key supplied }) in
        let after =
          receive crypto decode_uri config at_end message
            (begin_connect config at_start asking).0 in
        (page.log ≡ sent message ∷ answering.log)
        × (after.wallet.state ≡ connected)
        × (after.wallet.public_key ≡ some key)
        × (after.wallet.address ≡ some address)
        × (after.pending ≡ none)
  unfolding receive request_id_of join joined
  handoff asking answering at_start at_answer at_end key address supplied free away works uuid valid
        made no_own channel in_time works' =
      let id = request_id_of at_start in
      let u = (begin_connect config at_start asking).0 in
      let (state, pending) = request_of_tab at_start asking free away works in
      let live : IsLive at_end id u =
        (_, at_start.now, pending, refl, refl, refl, (λ e. cc e), in_time, ap is_working works') in
      let joins = passed_on_joins at_end id key address (or_text supplied) u valid made live in
      let apart : is_connected crypto decode_uri config u.wallet ≡ false =
        ap (λ s. elim s as (λ _. Bool) [ connected ↦ true | _ ↦ false ]) state in
      let received =
        ap
          (λ b.
            if b
            then u
            else passed_on crypto decode_uri config at_end (text key) (or_text supplied) (text id)
                u)
          apart
        ∙ joins in
      let w = persist-wallet crypto at_end (
        with_wallet (joined u.wallet key address deeplink (link_signer config at_end key))
          (forget_pending u)) in
      (
        passes_on at_answer answering id key supplied (not_sign_id at_start.uuid uuid) valid no_own
            channel,
        ap (λ t. t.wallet.state) received ∙ ap (λ v. v.state) w,
        ap (λ t. t.wallet.public_key) received ∙ ap (λ v. v.public_key) w,
        ap (λ t. t.wallet.address) received ∙ ap (λ v. v.address) w,
        ap (λ t. t.pending) received ∙ persist-pending at_end _,
      )
