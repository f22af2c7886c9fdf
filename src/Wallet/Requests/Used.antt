-- ===== src/Wallet/Requests/Used.antt =====
-- src/adapter/wallet-adapter.ts: a connection by redirect uses up a request of the tab.
use kalvora_js.Common.{
  ◌≡◌, ◌≢◌, refl, sym, ap, ◌∙◌, Bool, true, false, Option, none, some, Text, if◌then◌else◌,
  Option-cases, Result-cases, if_both, inl, inr,
}
use kalvora_js.Keys.{Crypto, is_valid_wallet_key}
use kalvora_js.Wallet.{
  Field, text, connected, Params, connect_result, Tab, Browser, Config, validate_pending, valid_key,
  resolve_wallet_address, persist, persist_key, no_params,
}
use kalvora_js.Wallet.Session.{join}
use kalvora_js.Wallet.Callback.{
  connect_callback, correlated, answered, answered_by_link, link_key, forward, or_text,
}
use kalvora_js.Wallet.Events.{is_connected, joined_by, passed_on, receive}
use kalvora_js.Wallet.Consistent.{valid_key-some}
use kalvora_js.Wallet.Consistent.Untouched.{validate_pending-wallet}
use kalvora_js.Wallet.Requests.{IsLive, validate_pending_yes, live_yes}
use kalvora_js.Wallet.Consistent.Callbacks.{forward_of-wallet}

persist_key-pending :
    (browser : Browser) (t : Tab) (o : Option Text) → (persist_key browser t o).pending ≡ t.pending
unfolding persist_key
persist_key-pending browser t none = refl
persist_key-pending browser t (some key) =
    if_both (λ (u : Tab). u.pending ≡ t.pending) browser.local_storage _ _ refl refl

pub persist-pending : (browser : Browser) (t : Tab) → (persist browser t).pending ≡ t.pending
unfolding persist
persist-pending browser t = persist_key-pending browser t t.wallet.public_key

module _ (crypto : Crypto) (decode_uri : Text → Option Text) (config : Config) where
  -- A tab that is connected where it was not has used up a live request, on a key that is valid.
  abbrev pub UsedUp : Browser → Field → Field → Tab → Tab → Type 0
  UsedUp browser account id_field t after =
      (id key : Text) × (id_field ≡ text id)
      × (account ≡ text key)
      × (is_valid_wallet_key crypto key ≡ true)
      × IsLive browser id t
      × (after.pending ≡ none)

  joined_by_used :
      (browser : Browser) (key : Text) (supplied : Field) (u : Tab) (known : Bool)
      → u.wallet.state ≢ connected
      → (joined_by crypto decode_uri config browser key supplied (u, known)).wallet.state
        ≡ connected
      → (known ≡ true)
        × ((joined_by crypto decode_uri config browser key supplied (u, known)).pending ≡ u.pending)
  unfolding join
  joined_by_used browser key supplied u false not_yet h = absurd (not_yet h)
  joined_by_used browser key supplied u true not_yet h =
      elim (Result-cases (resolve_wallet_address crypto key supplied)) [
        | inr (e, is) ↦ absurd (not_yet (rw (is, joined_by) at h))
        | inl (address, is) ↦ (refl, rw (is, joined_by) (persist-pending browser _))
      ]

  passed_on_used :
      (browser : Browser) (account supplied id_field : Field) (t : Tab)
      → t.wallet.state ≢ connected
      → (passed_on crypto decode_uri config browser account supplied id_field t).wallet.state
        ≡ connected
      → UsedUp browser account id_field t
          (passed_on crypto decode_uri config browser account supplied id_field t)
  passed_on_used browser account supplied (text id) t not_yet h =
      elim (Option-cases (valid_key crypto account)) [
        | inl bad ↦ absurd (not_yet (rw (bad, passed_on) at h))
        | inr (key, good) ↦
            let r = validate_pending browser (some id) true t in
            let not_yet' : r.0.wallet.state ≢ connected = λ e.
              not_yet
                (sym (ap (λ w. w.state) (validate_pending-wallet browser (some id) true t)) ∙ e) in
            let (known, kept) =
              joined_by_used browser key supplied r.0 r.1 not_yet' (rw (good, passed_on) at h) in
            let (live, left) = validate_pending_yes browser id true t known in
            let (is, valid) = valid_key-some crypto account key good in
            (id, key, refl, is, valid, live, rw (good, passed_on) (kept ∙ ap (λ u. u.pending) left))
      ]
  passed_on_used browser account supplied _ t not_yet h = absurd (not_yet h)

  unless_connected :
      (browser : Browser) (account supplied id_field : Field) (t : Tab) (b : Bool)
      → t.wallet.state ≢ connected
      → (if b
          then t
          else passed_on crypto decode_uri config browser account supplied id_field t).wallet.state
        ≡ connected
      → UsedUp browser account id_field t
          (if b then t else passed_on crypto decode_uri config browser account supplied id_field t)
  unless_connected browser account supplied id_field t true not_yet h = absurd (not_yet h)
  unless_connected browser account supplied id_field t false not_yet h =
      passed_on_used browser account supplied id_field t not_yet h

  -- A message from another tab connects a tab that is not connected only where this tab holds a live
  -- request with the message's identifier and the message's key is valid; and the request is then gone.
  pub receive-UsedUp :
      (browser : Browser) (account supplied id_field : Field) (t : Tab)
      → t.wallet.state ≢ connected
      → (receive crypto decode_uri config browser
          (connect_result account supplied id_field)
          t).wallet.state
        ≡ connected
      → UsedUp browser account id_field t
          (receive crypto decode_uri config browser (connect_result account supplied id_field) t)
  unfolding receive
  receive-UsedUp browser account supplied id_field t not_yet h =
      unless_connected browser account supplied id_field t
        (is_connected crypto decode_uri config t.wallet) not_yet h

  link_key_used :
      (browser : Browser) (key : Text) (supplied : Field) (u : Tab)
      → (link_key crypto decode_uri config browser key supplied u).pending ≡ u.pending
  unfolding join
  link_key_used browser key supplied u =
      elim (Result-cases (resolve_wallet_address crypto key supplied)) [
        | inr (e, is) ↦ rw (is, link_key) refl
        | inl (address, is) ↦ rw (is, link_key) (persist-pending browser _)
      ]

  answered_used :
      (browser : Browser) (message key supplied : Option Text) (u : Tab)
      → u.wallet.state ≢ connected
      → (answered crypto decode_uri config browser message key supplied u).wallet.state ≡ connected
      → (k : Text) × (message ≡ none)
        × (key ≡ some k)
        × (is_valid_wallet_key crypto k ≡ true)
        × ((answered crypto decode_uri config browser message key supplied u).pending ≡ u.pending)
  unfolding answered valid_key
  answered_used browser (some message) key supplied u not_yet h = absurd (not_yet h)
  answered_used browser none none supplied u not_yet h = absurd (not_yet h)
  answered_used browser none (some key) supplied u not_yet h =
      elim (Option-cases (valid_key crypto (text key))) [
        | inl bad ↦ absurd (not_yet (rw (bad, answered) at h))
        | inr (k, good) ↦
            let (is, valid) = valid_key-some crypto (text key) k good in
            (
              k,
              refl,
              ap some (cc is),
              valid,
              rw (good, answered) (link_key_used browser k (or_text supplied) u),
            )
      ]

  correlated_used :
      (browser : Browser) (url : Params) (r : Tab × Bool)
      → r.0.wallet.state ≢ connected
      → (correlated crypto decode_uri config browser url r).wallet.state ≡ connected
      → (r.1 ≡ true)
        × (key : Text) × (url.error ≡ none)
        × (url.result ≡ some key)
        × (is_valid_wallet_key crypto key ≡ true)
        × ((correlated crypto decode_uri config browser url r).pending
            ≡ (validate_pending browser url.request_id true r.0).0.pending)
  unfolding answered_by_link forward
  correlated_used browser url (u, false) not_yet h = absurd (
      not_yet (
        sym (
          ap (λ w. w.state)
            (forward_of-wallet crypto decode_uri config browser url.address url.request_id
              url.result url.error u))
        ∙ h))
  correlated_used browser url (u, true) not_yet h =
      let v = (validate_pending browser url.request_id true u).0 in
      let not_yet' : v.wallet.state ≢ connected = λ e.
        not_yet
          (sym (ap (λ w. w.state) (validate_pending-wallet browser url.request_id true u)) ∙ e) in
      let (key, no_error, is, valid, left) =
        answered_used browser url.error url.result url.address (record v { url = no_params })
          not_yet' h in
      (refl, key, no_error, is, valid, left)

  yes_some :
      (browser : Browser) (o : Option Text) (consume : Bool) (t : Tab)
      → (validate_pending browser o consume t).1 ≡ true
      → (id : Text) × (o ≡ some id)
  unfolding validate_pending
  yes_some browser none consume t h = cc h
  yes_some browser (some id) consume t h = (id, refl)

  -- A page that a wallet app has sent the user back to is connected by it only where the call-back has
  -- a valid key and no error, and its identifier is that of a live request of the tab; and the request
  -- is then gone, so that the same call-back is not accepted twice.
  pub connect_callback-UsedUp :
      (browser : Browser) (url : Params) (t : Tab)
      → t.wallet.state ≢ connected
      → (connect_callback crypto decode_uri config browser url t).wallet.state ≡ connected
      → (id key : Text) × (url.request_id ≡ some id)
        × (url.error ≡ none)
        × (url.result ≡ some key)
        × (is_valid_wallet_key crypto key ≡ true)
        × IsLive browser id t
        × ((connect_callback crypto decode_uri config browser url t).pending ≡ none)
  unfolding connect_callback
  connect_callback-UsedUp browser url t not_yet h =
      let r = validate_pending browser url.request_id false t in
      let not_yet' : r.0.wallet.state ≢ connected = λ e.
        not_yet
          (sym (ap (λ w. w.state) (validate_pending-wallet browser url.request_id false t)) ∙ e) in
      let (known, key, no_error, is, valid, left) = correlated_used browser url r not_yet' h in
      let (id, id_is) = yes_some browser url.request_id false t known in
      let known' : (validate_pending browser (some id) false t).1 ≡ true =
        ap (λ o. (validate_pending browser o false t).1) (sym id_is) ∙ known in
      let (live, same) = validate_pending_yes browser id false t known' in
      let (_, gone) = validate_pending_yes browser id true t (live_yes browser id true t live) in
      let gone' : (validate_pending browser url.request_id true r.0).0.pending ≡ none =
        ap (λ u. (validate_pending browser url.request_id true u).0.pending)
          (ap (λ o. (validate_pending browser o false t).0) id_is ∙ same)
        ∙ ap (λ o. (validate_pending browser o true t).0.pending) id_is
        ∙ ap (λ u. u.pending) gone in
      (id, key, id_is, no_error, is, valid, live, left ∙ gone')
