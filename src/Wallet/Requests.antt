-- ===== src/Wallet/Requests.antt =====
-- src/adapter/wallet-adapter.ts: which pending request `_validatePendingConnectRequest` accepts.
pub mod Used
use kalvora_js.Common.{
  ℕ, ◌≡◌, ◌≢◌, ◌↔◌, refl, sym, ap, ◌∙◌, Bool, true, false, not, ◌||◌, Option, none, some, List, [],
  ◌∷◌, Text, codes, text_eq, text_eq_iff, text_eq_refl, if◌then◌else◌, Bool-cases, Option-cases,
  Result-cases, if_both, Result, ok, err, inl, inr, arith,
}
use kalvora_js.Common.Int.{ℤ, pos, negsuc, ◌-ℤ◌, ◌≤ℤ◌, ltb_ℤ}
use kalvora_js.Keys.{Crypto, is_valid_wallet_key}
use kalvora_js.Wallet.{
  Field, text, number, missing, falsy, other, Stored, unparsable, null_value, object, State,
  disconnected, connecting, connected, deeplink, PendingConnect, Params, Message, connect_result,
  Wallet, Tab, Browser, Config, connect_ttl, minus_clock_skew, is_working, is_stale, shape_of,
  forget_pending, check_shape, check_pending, validate_pending, valid_key, resolve_wallet_address,
  persist, persist_key,
}
use kalvora_js.Wallet.Session.{join, joined, link_signer, with_wallet}
use kalvora_js.Wallet.Callback.{
  connect_callback, correlated, answered, answered_by_link, link_key, forward, or_text,
}
use kalvora_js.Wallet.Events.{is_connected, joined_by, passed_on, receive}
use kalvora_js.Wallet.Consistent.{valid_key-some}
use kalvora_js.Wallet.Consistent.Untouched.{validate_pending-wallet}

-- Not older than ten minutes, and not from more than a minute ahead.
abbrev pub InTime : ℤ → ℤ → Type 0
InTime now time = (now -ℤ time ≤ℤ connect_ttl) × (minus_clock_skew ≤ℤ now -ℤ time)

-- The tab holds a request to connect with this identifier, made in time.
abbrev pub IsLive : Browser → Text → Tab → Type 0
IsLive browser id t =
    (p : PendingConnect) × (time : ℤ) × (t.pending ≡ some (object p))
    × (p.kind ≡ text (codes "connect"))
    × (p.request_id ≡ text id)
    × (p.timestamp ≡ number time)
    × (id ≢ [])
    × InTime browser.now time
    × (is_working browser.session ≡ true)

ltb_ℤ-false : (a b : ℤ) → ltb_ℤ a b ≡ false → b ≤ℤ a
ltb_ℤ-false a b h = ground arith

ltb_ℤ_of_le : (a b : ℤ) → b ≤ℤ a → ltb_ℤ a b ≡ false
ltb_ℤ_of_le a b h = ground arith

or_false_parts : (a b : Bool) → (a || b) ≡ false → (a ≡ false) × (b ≡ false)
or_false_parts true b h = cc h
or_false_parts false b h = (refl, h)

pub not_stale :
    (ttl now time : ℤ)
    → is_stale ttl now time ≡ false
    → (now -ℤ time ≤ℤ ttl) × (minus_clock_skew ≤ℤ now -ℤ time)
unfolding is_stale
not_stale ttl now time h =
    let (a, b) = or_false_parts (ltb_ℤ ttl (now -ℤ time)) _ h in
    (ltb_ℤ-false ttl (now -ℤ time) a, ltb_ℤ-false (now -ℤ time) minus_clock_skew b)

stale_of_InTime : (now time : ℤ) → InTime now time → is_stale connect_ttl now time ≡ false
unfolding is_stale
stale_of_InTime now time (a, b) =
    rw (ltb_ℤ_of_le connect_ttl (now -ℤ time) a, ltb_ℤ_of_le (now -ℤ time) minus_clock_skew b) refl

shape_of-inv :
    (k i s : Field) (id : Text) (time : ℤ)
    → shape_of k i s ≡ some (id, time)
    → (k ≡ text (codes "connect")) × (i ≡ text id) × (s ≡ number time) × (id ≢ [])
shape_of-inv (text kind) (text (c ∷ i)) (number n) id time h =
    elim (Bool-cases (text_eq kind (codes "connect"))) [
      | inl is ↦
          let same : some (c ∷ i, n) ≡ some (id, time) = rw is at h in
          (ap text ((text_eq_iff kind (codes "connect")).0 is), cc same, cc same, λ e. cc (same, e))
      | inr bad ↦ cc (rw bad at h)
    ]
shape_of-inv _ _ _ id time h = cc h

-- What a check that answers yes has seen.
check_shape_yes :
    (browser : Browser) (id : Text) (consume : Bool) (t : Tab) (o : Option (Text × ℤ))
    → (check_shape browser id consume t o).1 ≡ true
    → (time : ℤ) × (o ≡ some (id, time))
      × InTime browser.now time
      × ((check_shape browser id consume t o).0 ≡ (if consume then forget_pending t else t))
unfolding check_shape
check_shape_yes browser id consume t none h = cc h
check_shape_yes browser id consume t (some (i, time)) h =
    elim (Bool-cases (is_stale connect_ttl browser.now time)) [
      | inl stale ↦ cc (rw stale at h)
      | inr fresh ↦ elim (Bool-cases (text_eq i id)) [
        | inr different ↦ cc (rw (fresh, different) at h)
        | inl same ↦ (
          time,
          ap (λ j. some (j, time)) ((text_eq_iff i id).0 same),
          not_stale connect_ttl browser.now time fresh,
          rw (fresh, same) refl,
        )
      ]
    ]

check_pending_yes :
    (browser : Browser) (id : Text) (consume : Bool) (t : Tab) (o : Option (Stored PendingConnect))
    → (check_pending browser id consume t o).1 ≡ true
    → (p : PendingConnect) × (time : ℤ) × (o ≡ some (object p))
      × (shape_of p.kind p.request_id p.timestamp ≡ some (id, time))
      × InTime browser.now time
      × ((check_pending browser id consume t o).0 ≡ (if consume then forget_pending t else t))
unfolding check_pending
check_pending_yes browser id consume t none h = cc h
check_pending_yes browser id consume t (some null_value) h = cc h
check_pending_yes browser id consume t (some unparsable) h = cc h
check_pending_yes browser id consume t (some (object p)) h =
    let (time, shape, in_time, left) =
      check_shape_yes browser id consume t (shape_of p.kind p.request_id p.timestamp) h in
    (p, time, refl, shape, in_time, left)

-- Where the answer is yes, the request is live, and is gone if it was to be used up.
pub validate_pending_yes :
    (browser : Browser) (id : Text) (consume : Bool) (t : Tab)
    → (validate_pending browser (some id) consume t).1 ≡ true
    → IsLive browser id t
      × ((validate_pending browser (some id) consume t).0
          ≡ (if consume then forget_pending t else t))
unfolding validate_pending
validate_pending_yes browser [] consume t h = cc h
validate_pending_yes browser (c ∷ id) consume t h = elim (Bool-cases (is_working browser.session)) [
  | inr bad ↦ cc (rw bad at h)
  | inl works ↦
      let (p, time, is, shape, in_time, left) =
        check_pending_yes browser (c ∷ id) consume t t.pending (rw works at h) in
      let (kind, rid, stamp, some_id) =
        shape_of-inv p.kind p.request_id p.timestamp (c ∷ id) time shape in
      ((p, time, is, kind, rid, stamp, some_id, in_time, works), rw works left)
]

shape_of_fields :
    (id : Text) (time : ℤ)
    → id ≢ []
    → shape_of (text (codes "connect")) (text id) (number time) ≡ some (id, time)
shape_of_fields [] time h = absurd (h refl)
shape_of_fields (c ∷ id) time h = refl

check_pending_live :
    (browser : Browser) (id : Text) (consume : Bool) (t : Tab) (p : PendingConnect) (time : ℤ)
    → shape_of p.kind p.request_id p.timestamp ≡ some (id, time)
    → InTime browser.now time
    → (check_pending browser id consume t (some (object p))).1 ≡ true
unfolding check_pending check_shape
check_pending_live browser id consume t p time shape in_time =
    rw (shape, check_shape) (rw (stale_of_InTime browser.now time in_time, text_eq_refl id) refl)

pub live_yes :
    (browser : Browser) (id : Text) (consume : Bool) (t : Tab)
    → IsLive browser id t
    → (validate_pending browser (some id) consume t).1 ≡ true
unfolding validate_pending
live_yes browser [] consume t (p, time, is, kind, rid, stamp, some_id, in_time, works) =
    absurd (some_id refl)
live_yes browser (c ∷ id) consume t (p, time, is, kind, rid, stamp, some_id, in_time, works) =
    let shape : shape_of p.kind p.request_id p.timestamp ≡ some (c ∷ id, time) =
      ap (λ k. shape_of k p.request_id p.timestamp) kind
      ∙ ap (λ r. shape_of (text (codes "connect")) r p.timestamp) rid
      ∙ ap (λ n. shape_of (text (codes "connect")) (text (c ∷ id)) n) stamp
      ∙ shape_of_fields (c ∷ id) time some_id in
    let found =
      ap (λ o. (check_pending browser (c ∷ id) consume t o).1) is
      ∙ check_pending_live browser (c ∷ id) consume t p time shape in_time in
    ap (λ b. (if b then check_pending browser (c ∷ id) consume t t.pending else (t, false)).1) works
    ∙ found

-- A call-back's identifier is accepted exactly if the tab holds a request to connect with this
-- identifier, which is not empty, made at most ten minutes ago and at most one minute ahead of the
-- clock, in a storage that works; whether the request is to be used up or not.
pub validate_pending_iff :
    (browser : Browser) (id : Text) (consume : Bool) (t : Tab)
    → ((validate_pending browser (some id) consume t).1 ≡ true) ↔ IsLive browser id t
validate_pending_iff browser id consume t =
    (λ h. (validate_pending_yes browser id consume t h).0, live_yes browser id consume t)
