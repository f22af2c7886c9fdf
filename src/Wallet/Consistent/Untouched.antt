-- ===== src/Wallet/Consistent/Untouched.antt =====
-- src/adapter/wallet-adapter.ts and src/adapter/wallet-signer.ts: the checks of pending requests do not
-- touch the wallet.
use kalvora_js.Common.{
  ◌≡◌, refl, Bool, not, Option, none, some, [], ◌∷◌, Text, if_both, text_eq, ◌&&◌,
}
use kalvora_js.Common.Int.{ℤ, pos, ltb_ℤ}
use kalvora_js.Wallet.{
  Field, text, number, missing, falsy, other, Stored, unparsable, null_value, object,
  PendingConnect, PendingSign, SignKind, Message, Tab, Browser, broadcast_message, validate_pending,
  check_pending, check_shape, connect_ttl, is_stale, forget_pending, shape_of, is_working,
}
use kalvora_js.Wallet.Signing.{
  Live, get_pending, check_signing, check_id, check_live, sign_shape, min_ℤ, max_sign_ttl,
}

-- What a check of a pending request leaves alone.
check_shape-wallet :
    (browser : Browser) (id : Text) (consume : Bool) (t : Tab) (o : Option (Text × ℤ))
    → (check_shape browser id consume t o).0.wallet ≡ t.wallet
unfolding check_shape
check_shape-wallet browser id consume t none = refl
check_shape-wallet browser id consume t (some (i, time)) =
    if_both (λ (r : Tab × Bool). r.0.wallet ≡ t.wallet) (is_stale connect_ttl browser.now time) _ _
      refl
      (if_both (λ (r : Tab × Bool). r.0.wallet ≡ t.wallet) (not (text_eq i id)) _ _ refl
        (if_both (λ (u : Tab). u.wallet ≡ t.wallet) consume (forget_pending t) t refl refl))

check_pending-wallet :
    (browser : Browser) (id : Text) (consume : Bool) (t : Tab) (o : Option (Stored PendingConnect))
    → (check_pending browser id consume t o).0.wallet ≡ t.wallet
unfolding check_pending
check_pending-wallet browser id consume t none = refl
check_pending-wallet browser id consume t (some null_value) = refl
check_pending-wallet browser id consume t (some unparsable) = refl
check_pending-wallet browser id consume t (some (object p)) =
    check_shape-wallet browser id consume t (shape_of p.kind p.request_id p.timestamp)

pub validate_pending-wallet :
    (browser : Browser) (o : Option Text) (consume : Bool) (t : Tab)
    → (validate_pending browser o consume t).0.wallet ≡ t.wallet
unfolding validate_pending
validate_pending-wallet browser none consume t = refl
validate_pending-wallet browser (some []) consume t = refl
validate_pending-wallet browser (some (c ∷ id)) consume t =
    if_both (λ (r : Tab × Bool). r.0.wallet ≡ t.wallet) (is_working browser.session) _ _
      (check_pending-wallet browser (c ∷ id) consume t t.pending) refl

check_live-wallet :
    (browser : Browser) (id : Text) (age : ℤ) (t : Tab) (key : Option Text) (i : Text)
    (o : Option (SignKind × ℤ))
    → (check_live browser id age t key i o).0.wallet ≡ t.wallet
unfolding check_live
check_live-wallet browser id age t key i none = refl
check_live-wallet browser id age t key i (some (kind, time)) =
    if_both (λ (r : Tab × Option Live). r.0.wallet ≡ t.wallet)
      (is_stale (min_ℤ age max_sign_ttl) browser.now time) _ _ refl
      (if_both (λ (r : Tab × Option Live). r.0.wallet ≡ t.wallet) (text_eq i id) _ _ refl refl)

check_id-wallet :
    (browser : Browser) (id : Text) (age : ℤ) (t : Tab) (p : PendingSign) (f : Field)
    → (check_id browser id age t p f).0.wallet ≡ t.wallet
unfolding check_id
check_id-wallet browser id age t p (text i) =
    check_live-wallet browser id age t p.public_key i (sign_shape p i)
check_id-wallet browser id age t p (number n) = refl
check_id-wallet browser id age t p missing = refl
check_id-wallet browser id age t p falsy = refl
check_id-wallet browser id age t p other = refl

check_signing-wallet :
    (browser : Browser) (id : Text) (age : ℤ) (t : Tab) (o : Option (Stored PendingSign))
    → (check_signing browser id age t o).0.wallet ≡ t.wallet
unfolding check_signing
check_signing-wallet browser id age t none = refl
check_signing-wallet browser id age t (some null_value) = refl
check_signing-wallet browser id age t (some unparsable) = refl
check_signing-wallet browser id age t (some (object p)) =
    check_id-wallet browser id age t p p.request_id

pub get_pending-wallet :
    (browser : Browser) (o : Option Text) (age : ℤ) (t : Tab)
    → (get_pending browser o age t).0.wallet ≡ t.wallet
unfolding get_pending
get_pending-wallet browser none age t = refl
get_pending-wallet browser (some []) age t = refl
get_pending-wallet browser (some (c ∷ id)) age t =
    if_both (λ (r : Tab × Option Live). r.0.wallet ≡ t.wallet)
      (ltb_ℤ (pos 0) age && is_working browser.session) _ _
      (check_signing-wallet browser (c ∷ id) age t t.signing) refl

pub broadcast_message-wallet :
    (browser : Browser) (m : Message) (t : Tab) → (broadcast_message browser m t).wallet ≡ t.wallet
broadcast_message-wallet browser m t =
    if_both (λ (u : Tab). u.wallet ≡ t.wallet) browser.broadcast _ _ refl refl
