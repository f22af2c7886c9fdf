-- ===== src/Wallet/SignedOnce/Asked.antt =====
-- src/adapter/wallet-signer.ts: which pending request `_getPendingRequest` answers with.
use kalvora_js.Common.{
  ◌≡◌, refl, sym, ap, ◌∙◌, true, ◌&&◌, Option, none, some, [], ◌∷◌, Text, text_eq, text_eq_iff,
  if◌then◌else◌, if_both, Bool-cases, Option-cases, inl, inr,
}
use kalvora_js.Common.Int.{ℤ, pos, ltb_ℤ, ◌≤ℤ◌, ◌-ℤ◌}
use kalvora_js.Js.{starts_with}
use kalvora_js.Wallet.{
  Field, text, number, missing, falsy, other, Stored, unparsable, null_value, object, SignKind,
  PendingSign, Tab, Browser, is_working, is_stale, minus_clock_skew,
}
use kalvora_js.Wallet.Signing.{
  Live, max_sign_ttl, min_ℤ, kind_of, kind_prefix, sign_shape, check_live, check_id, check_signing,
  get_pending,
}
use kalvora_js.Wallet.Requests.{not_stale}

-- The tab holds a request to sign, of this kind and for this key, with this identifier, which is one
-- of the kind, made in the time that the caller allows, ten minutes at most.
abbrev pub IsAsked : Browser → Text → ℤ → Tab → Live → Type 0
IsAsked browser id max_age t live =
    (p : PendingSign) × (time : ℤ) × (t.signing ≡ some (object p))
    × (kind_of p.kind ≡ some live.kind)
    × (p.request_id ≡ text id)
    × (p.timestamp ≡ number time)
    × (p.public_key ≡ live.public_key)
    × (starts_with (kind_prefix live.kind) id ≡ true)
    × (browser.now -ℤ time ≤ℤ min_ℤ max_age max_sign_ttl)
    × (minus_clock_skew ≤ℤ browser.now -ℤ time)

time_of :
    (f : Field) (kind k : SignKind) (id : Text) (time : ℤ)
    → (elim f as (λ _. Option (SignKind × ℤ)) [
      | number n ↦ if starts_with (kind_prefix kind) id then some (kind, n) else none
      | _ ↦ none
    ])
      ≡ some (k, time)
    → (f ≡ number time) × (kind ≡ k) × (starts_with (kind_prefix kind) id ≡ true)
time_of (number n) kind k id time h = elim (Bool-cases (starts_with (kind_prefix kind) id)) [
  | inl starts ↦
      let same : some (kind, n) ≡ some (k, time) = rw starts at h in (cc same, cc same, starts)
  | inr bad ↦ cc (rw bad at h)
]
time_of (text s) kind k id time h = cc h
time_of missing kind k id time h = cc h
time_of falsy kind k id time h = cc h
time_of other kind k id time h = cc h

sign_shape-inv :
    (p : PendingSign) (id : Text) (kind : SignKind) (time : ℤ)
    → sign_shape p id ≡ some (kind, time)
    → (kind_of p.kind ≡ some kind)
      × (p.timestamp ≡ number time)
      × (starts_with (kind_prefix kind) id ≡ true)
unfolding sign_shape
sign_shape-inv p id kind time h = elim (Option-cases (kind_of p.kind)) [
  | inl bad ↦ cc (rw (bad, sign_shape) at h)
  | inr (k, is) ↦
      let (stamp, same, prefix) = time_of p.timestamp k kind id time (rw (is, sign_shape) at h) in
      (is ∙ ap some same, stamp, ap (λ l. starts_with (kind_prefix l) id) (sym same) ∙ prefix)
]

check_live-some :
    (browser : Browser) (request_id : Text) (max_age : ℤ) (t : Tab) (key : Option Text) (id : Text)
    (o : Option (SignKind × ℤ)) (live : Live)
    → (check_live browser request_id max_age t key id o).1 ≡ some live
    → (time : ℤ) × (o ≡ some (live.kind, time))
      × (id ≡ request_id)
      × (live.id ≡ request_id)
      × (key ≡ live.public_key)
      × ((browser.now -ℤ time ≤ℤ min_ℤ max_age max_sign_ttl)
          × (minus_clock_skew ≤ℤ browser.now -ℤ time))
unfolding check_live
check_live-some browser request_id max_age t key id none live h = cc h
check_live-some browser request_id max_age t key id (some (kind, time)) live h =
    elim (Bool-cases (is_stale (min_ℤ max_age max_sign_ttl) browser.now time)) [
      | inl stale ↦ cc (rw stale at h)
      | inr fresh ↦ elim (Bool-cases (text_eq id request_id)) [
        | inr different ↦ cc (rw (fresh, different) at h)
        | inl same ↦
            let whole : some (record { kind = kind; id = id; public_key = key }) ≡ some live =
              rw (fresh, same) at h in
            let made : record { kind = kind; id = id; public_key = key } ≡ live = cc whole in
            let equal = (text_eq_iff id request_id).0 same in
            (
              time,
              ap (λ l. some (l.kind, time)) made,
              equal,
              sym (ap (λ l. l.id) made) ∙ equal,
              ap (λ l. l.public_key) made,
              not_stale (min_ℤ max_age max_sign_ttl) browser.now time fresh,
            )
      ]
    ]

check_id-some :
    (browser : Browser) (request_id : Text) (max_age : ℤ) (t : Tab) (p : PendingSign) (f : Field)
    (live : Live)
    → p.request_id ≡ f
    → t.signing ≡ some (object p)
    → (check_id browser request_id max_age t p f).1 ≡ some live
    → (live.id ≡ request_id) × IsAsked browser request_id max_age t live
unfolding check_id
check_id-some browser request_id max_age t p (text id) live is holds h =
    let (time, shape, equal, same_id, key, in_time) =
      check_live-some browser request_id max_age t p.public_key id (sign_shape p id) live h in
    let (kind, stamp, prefix) = sign_shape-inv p id live.kind time shape in
    (
      same_id,
      (
        p,
        time,
        holds,
        kind,
        is ∙ ap text equal,
        stamp,
        key,
        ap (λ i. starts_with (kind_prefix live.kind) i) (sym equal) ∙ prefix,
        in_time.0,
        in_time.1,
      ),
    )
check_id-some browser request_id max_age t p (number n) live is holds h = cc h
check_id-some browser request_id max_age t p missing live is holds h = cc h
check_id-some browser request_id max_age t p falsy live is holds h = cc h
check_id-some browser request_id max_age t p other live is holds h = cc h

check_signing-some :
    (browser : Browser) (request_id : Text) (max_age : ℤ) (t : Tab)
    (o : Option (Stored PendingSign)) (live : Live)
    → t.signing ≡ o
    → (check_signing browser request_id max_age t o).1 ≡ some live
    → (live.id ≡ request_id) × IsAsked browser request_id max_age t live
unfolding check_signing
check_signing-some browser request_id max_age t none live holds h = cc h
check_signing-some browser request_id max_age t (some null_value) live holds h = cc h
check_signing-some browser request_id max_age t (some unparsable) live holds h = cc h
check_signing-some browser request_id max_age t (some (object p)) live holds h =
    check_id-some browser request_id max_age t p p.request_id live refl holds h

pub get_pending-some :
    (browser : Browser) (request_id : Text) (max_age : ℤ) (t : Tab) (live : Live)
    → (get_pending browser (some request_id) max_age t).1 ≡ some live
    → (live.id ≡ request_id) × IsAsked browser request_id max_age t live
unfolding get_pending
get_pending-some browser [] max_age t live h = cc h
get_pending-some browser (c ∷ id) max_age t live h =
    elim (Bool-cases (ltb_ℤ (pos 0) max_age && is_working browser.session)) [
      | inr bad ↦ cc (rw bad at h)
      | inl works ↦
          check_signing-some browser (c ∷ id) max_age t t.signing live refl (rw works at h)
    ]

-- With no request there is none that is live.
pub get_pending-none :
    (browser : Browser) (request_id : Text) (max_age : ℤ) (t : Tab)
    → t.signing ≡ none
    → get_pending browser (some request_id) max_age t ≡ (t, none)
unfolding get_pending check_signing
get_pending-none browser [] max_age t h = refl
get_pending-none browser (c ∷ id) max_age t h =
    if_both (λ (r : Tab × Option Live). r ≡ (t, none))
      (ltb_ℤ (pos 0) max_age && is_working browser.session) _ _
      (ap (check_signing browser (c ∷ id) max_age t) h) refl
