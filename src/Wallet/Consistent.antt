-- ===== src/Wallet/Consistent.antt =====
-- src/adapter/wallet-adapter.ts: key, address, signer and mode belong together in every state that
-- the adapter reaches.
pub mod Steps
pub mod Untouched
pub mod Callbacks
pub mod Reach
use kalvora_js.Common.{
  ℕ, ◌≡◌, ◌≢◌, refl, sym, ap, ◌∙◌, Bool, true, false, not, Option, none, some, List, [], ◌∷◌, Text,
  Result, ok, err, ◌>>=◌, >>=-eq-ok, Result-cases, Option-cases, Bool-cases, inl, inr, text_eq,
  text_eq_iff,
}
use mathlib.Core.Path.{subst}
use kalvora_js.Keys.{Crypto, generate_address, is_valid_wallet_key}
use kalvora_js.Keys.Address.{generate_address-accepts}
use kalvora_js.Wallet.{
  Field, text, number, missing, falsy, other, State, disconnected, connecting, connected, Mode,
  embedded, deeplink, manual, unknown, Signer, wallet_signer, deep_link_signer, WalletError, Wallet,
  Tab, Browser, Config, initial, persist, persist_key, derived, same_address, valid_key,
  resolve_wallet_address,
}
use kalvora_js.Wallet.Session.{joined, left, join, with_wallet}

-- The wallet's own signer in the embedded mode, redirects in the others, for the key.
abbrev pub Fits : Mode → Text → Signer → Type 0
Fits embedded key signer = signer ≡ wallet_signer key
Fits _ key signer = (base callback : Text) × (signer ≡ deep_link_signer key base callback)

module _ (crypto : Crypto) where
  -- Nothing is held and the state is not `connected`; or a valid key is held with the address that it
  -- has, and with a mode and a signer that fit it.
  pub data Consistent (w : Wallet) : Type 0 where
    nothing_held :
        w.public_key ≡ none
        → w.address ≡ none
        → w.signer ≡ none
        → w.mode ≡ none
        → w.state ≢ connected
        → Consistent w
    held :
        (key address : Text) (mode : Mode) (signer : Signer)
        → is_valid_wallet_key crypto key ≡ true
        → generate_address crypto key ≡ ok address
        → w.public_key ≡ some key
        → w.address ≡ some address
        → w.signer ≡ some signer
        → w.mode ≡ some mode
        → Fits mode key signer
        → Consistent w

  pub valid_key-some :
      (f : Field) (key : Text)
      → valid_key crypto f ≡ some key
      → (f ≡ text key) × (is_valid_wallet_key crypto key ≡ true)
  unfolding valid_key
  valid_key-some (text k) key h = elim (Bool-cases (is_valid_wallet_key crypto k)) [
    | inl valid ↦
        let same : some k ≡ some key = rw valid at h in (ap text (cc same), cc (same, valid))
    | inr bad ↦ cc (rw bad at h)
  ]
  valid_key-some (number n) key h = cc h
  valid_key-some missing key h = cc h
  valid_key-some falsy key h = cc h
  valid_key-some other key h = cc h

  derived-ok : (key a : Text) → derived crypto key ≡ ok a → generate_address crypto key ≡ ok a
  derived-ok key a h = elim (Result-cases (generate_address crypto key)) [
    | inl (b, e) ↦ e ∙ ap ok (cc (rw (e, derived) at h))
    | inr (x, e) ↦ cc (rw (e, derived) at h)
  ]

  same_address-ok : (f : Field) (a b : Text) → same_address crypto f a ≡ ok b → a ≡ b
  same_address-ok missing a b h = cc h
  same_address-ok (text []) a b h = cc h
  same_address-ok (text (c ∷ s)) a b h = elim (Bool-cases (text_eq (c ∷ s) a)) [
    | inl same ↦
        let whole : ok (c ∷ s) ≡ ok b = rw same at h in cc (whole, (text_eq_iff (c ∷ s) a).0 same)
    | inr different ↦ cc (rw different at h)
  ]
  same_address-ok (number n) a b h = cc h
  same_address-ok falsy a b h = cc h
  same_address-ok other a b h = cc h

  -- What is accepted as the address is the key's.
  pub resolve-generate_address :
      (key : Text) (f : Field) (a : Text)
      → resolve_wallet_address crypto key f ≡ ok a
      → generate_address crypto key ≡ ok a
  unfolding resolve_wallet_address
  resolve-generate_address key f a h =
      let (b, made, same) = >>=-eq-ok (derived crypto key) (same_address crypto f) h in
      derived-ok key b made ∙ ap ok (same_address-ok f b a same)

  pub resolve_missing :
      (key : Text)
      → is_valid_wallet_key crypto key ≡ true
      → (a : Text) × (resolve_wallet_address crypto key missing ≡ ok a)
  unfolding resolve_wallet_address
  resolve_missing key valid =
      let (a, is) = generate_address-accepts crypto key valid in
      (a, rw (is, resolve_wallet_address, derived) refl)

  persist_key-wallet :
      (browser : Browser) (t : Tab) (o : Option Text) → (persist_key browser t o).wallet ≡ t.wallet
  unfolding persist_key
  persist_key-wallet browser t none = refl
  persist_key-wallet browser t (some key) = elim (Bool-cases browser.local_storage) [
    | inl works ↦ rw works refl
    | inr broken ↦ rw broken refl
  ]

  pub persist-wallet : (browser : Browser) (t : Tab) → (persist browser t).wallet ≡ t.wallet
  unfolding persist
  persist-wallet browser t = persist_key-wallet browser t t.wallet.public_key

  pub joined-Consistent :
      (w : Wallet) (key address : Text) (mode : Mode) (signer : Signer)
      → is_valid_wallet_key crypto key ≡ true
      → generate_address crypto key ≡ ok address
      → Fits mode key signer
      → Consistent (joined w key address mode signer)
  unfolding joined
  joined-Consistent w key address mode signer valid made fits =
      held key address mode signer valid made refl refl refl refl fits

  pub join-Consistent :
      (browser : Browser) (t : Tab) (key address : Text) (mode : Mode) (signer : Signer)
      → is_valid_wallet_key crypto key ≡ true
      → generate_address crypto key ≡ ok address
      → Fits mode key signer
      → Consistent (join browser key address mode signer t).wallet
  unfolding join
  join-Consistent browser t key address mode signer valid made fits =
      subst Consistent
        (sym (persist-wallet browser (with_wallet (joined t.wallet key address mode signer) t)))
        (joined-Consistent t.wallet key address mode signer valid made fits)

  pub left-Consistent : (w : Wallet) → Consistent (left w)
  unfolding left
  left-Consistent w = nothing_held refl refl refl refl (λ e. cc e)

  pub initial-Consistent : Consistent initial
  initial-Consistent = nothing_held refl refl refl refl (λ e. cc e)

  -- What is held does not depend on the state, as long as it is not `connected`.
  pub restate-Consistent :
      (w : Wallet) (s : State) → s ≢ connected → Consistent w → Consistent (record w { state = s })
  restate-Consistent w s h (nothing_held a b c d e) = nothing_held a b c d h
  restate-Consistent w s h (held key address mode signer valid made a b c d fits) =
      held key address mode signer valid made a b c d fits

  pub provider-Consistent :
      (w : Wallet) (p : Bool) → Consistent w → Consistent (record w { provider = p })
  provider-Consistent w p (nothing_held a b c d e) = nothing_held a b c d e
  provider-Consistent w p (held key address mode signer valid made a b c d fits) =
      held key address mode signer valid made a b c d fits
