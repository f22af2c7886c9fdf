-- ===== src/Wallet/SignedOnce.antt =====
-- src/adapter/wallet-signer.ts: a signature is accepted for a request of the tab, once.
pub mod Asked
use kalvora_js.Wallet.SignedOnce.Asked.{IsAsked, get_pending-some, get_pending-none}
use kalvora_js.Common.{
  ◌≡◌, refl, sym, ap, ◌∙◌, Bool, true, false, not, ◌&&◌, ◌||◌, Option, none, some, [], ◌∷◌, Text,
  text_eq, text_eq_iff, Result, ok, ◌>>=◌, ◌>>◌, throw_if, if◌then◌else◌, if_both, Bool-cases,
  Option-cases, Result-cases, inl, inr, length, ◌==◌, ◌%◌,
}
use kalvora_js.Common.Int.{ℤ, pos, ltb_ℤ, ◌≤ℤ◌, ◌-ℤ◌}
use kalvora_js.Js.{starts_with}
use kalvora_js.Bytes.{Bytes}
use kalvora_js.Wallet.{
  Field, text, number, missing, falsy, other, Stored, unparsable, null_value, object, SignKind,
  SignResult, PendingSign, WalletError, bad_base64, bad_length, Tab, Browser, is_working, is_stale,
  minus_clock_skew,
}
use kalvora_js.Wallet.Signature.{
  expected_length, has_length, decode_signature, from_base64, is_base64_text, or_throw,
}
use kalvora_js.Wallet.Signing.{
  Live, max_sign_ttl, min_ℤ, kind_of, kind_prefix, sign_shape, check_live, check_id, check_signing,
  get_pending, nothing, result, signature_of, claimed_broadcast, consume_broadcast_result,
}
use kalvora_js.Wallet.Requests.{not_stale}

or_throw-ok :
    (decode_uri : Text → Option Text) (o : Option Text) (e : WalletError)
    (k : Text → Result WalletError Bytes) (bytes : Bytes)
    → (or_throw decode_uri o e >>= k) ≡ ok bytes
    → (s : Text) × (k s ≡ ok bytes)
or_throw-ok decode_uri none e k bytes h = cc h
or_throw-ok decode_uri (some s) e k bytes h = (s, h)

throw_if-ok :
    (b : Bool) (e : WalletError) (r : Result WalletError Bytes) (bytes : Bytes)
    → (throw_if b e >> r) ≡ ok bytes
    → (b ≡ false) × (r ≡ ok bytes)
throw_if-ok true e r bytes h = cc h
throw_if-ok false e r bytes h = (refl, h)

not-false : (b : Bool) → not b ≡ false → b ≡ true
not-false true h = refl
not-false false h = cc h

-- A signature that is accepted has the length that its key wants.
decode_signature-sized :
    (decode_uri : Text → Option Text) (encoded : Text) (key : Option Text) (bytes : Bytes)
    → decode_signature decode_uri encoded key ≡ ok bytes
    → has_length (expected_length key) bytes ≡ true
unfolding decode_signature
decode_signature-sized decode_uri encoded key bytes h =
    let (s, checked) = or_throw-ok decode_uri (decode_uri encoded) _ _ bytes h in
    let (_, read) =
      throw_if-ok (length s == 0 || not (length s % 4 == 0) || not (is_base64_text s)) bad_base64
        (throw_if (not (has_length (expected_length key) (from_base64 s)))
            (bad_length (expected_length key))
          >> ok (from_base64 s))
        bytes checked in
    let (fits, whole) =
      throw_if-ok (not (has_length (expected_length key) (from_base64 s)))
        (bad_length (expected_length key)) (ok (from_base64 s)) bytes read in
    let same : from_base64 s ≡ bytes = cc whole in
    ap (has_length (expected_length key)) (sym same) ∙ not-false _ fits

module _ (decode_uri : Text → Option Text) where
  signature_of-result :
      (live : Live) (encoded : Text) (r : SignResult)
      → signature_of decode_uri live encoded ≡ result r
      → (r.request_id ≡ live.id)
        × (r.operation ≡ live.kind)
        × (r.public_key ≡ live.public_key)
        × (has_length (expected_length live.public_key) r.signature ≡ true)
  unfolding signature_of
  signature_of-result live encoded r h =
      elim (Result-cases (decode_signature decode_uri encoded live.public_key)) [
        | inr (e, failed) ↦ cc (rw (failed, signature_of) at h)
        | inl (bytes, read) ↦
            let whole : result (record {
              signature = bytes;
              request_id = live.id;
              operation = live.kind;
              public_key = live.public_key;
            })
                ≡ result r =
              rw (read, signature_of) at h in
            let made : record {
              signature = bytes;
              request_id = live.id;
              operation = live.kind;
              public_key = live.public_key;
            }
                ≡ r =
              cc whole in
            (
              sym (ap (λ q. q.request_id) made),
              sym (ap (λ q. q.operation) made),
              sym (ap (λ q. q.public_key) made),
              ap (λ q. has_length (expected_length live.public_key) q.signature) (sym made)
                  ∙ decode_signature-sized decode_uri encoded live.public_key bytes read,
            )
      ]

  -- What a signature is accepted for.
  abbrev pub Accepted : Browser → Text → ℤ → Tab → SignResult → Tab → Type 0
  Accepted browser id max_age t r after =
      (live : Live) × IsAsked browser id max_age t live
      × (r.request_id ≡ id)
      × (r.operation ≡ live.kind)
      × (r.public_key ≡ live.public_key)
      × (has_length (expected_length live.public_key) r.signature ≡ true)
      × (after.signing ≡ none)

  claimed-Accepted :
      (browser : Browser) (encoded id : Text) (max_age : ℤ) (t : Tab) (pending : Tab × Option Live)
      (r : SignResult)
      → get_pending browser (some id) max_age t ≡ pending
      → (claimed_broadcast decode_uri encoded pending).1 ≡ result r
      → Accepted browser id max_age t r (claimed_broadcast decode_uri encoded pending).0
  claimed-Accepted browser encoded id max_age t (u, none) r is h = cc h
  claimed-Accepted browser encoded id max_age t (u, some live) r is h =
      let (same, asked) = get_pending-some browser id max_age t live (ap (λ q. q.1) is) in
      let (request, operation, key, sized) = signature_of-result live encoded r h in
      (live, asked, request ∙ same, operation, key, sized, refl)

  -- A signature that another tab passes on is accepted only where the tab holds a request to sign with
  -- its identifier, in time; the result has the request's identifier, kind and key, and a signature of
  -- the length that the key wants. The request is then gone, and the same message or any other with
  -- its identifier is ignored.
  pub consume_broadcast_result-once :
      (browser : Browser) (encoded id : Text) (max_age : ℤ) (t : Tab) (r : SignResult)
      (again : Browser) (other_text : Text)
      → (consume_broadcast_result decode_uri browser encoded id max_age t).1 ≡ result r
      → let after = (consume_broadcast_result decode_uri browser encoded id max_age t).0 in
        Accepted browser id max_age t r after
        × (consume_broadcast_result decode_uri again other_text id max_age after ≡ (after, nothing))
  unfolding consume_broadcast_result
  consume_broadcast_result-once browser encoded id max_age t r again other_text h =
      let accepted =
        claimed-Accepted browser encoded id max_age t (get_pending browser (some id) max_age t) r
          refl h in
      let after =
        (claimed_broadcast decode_uri encoded (get_pending browser (some id) max_age t)).0 in
      let (live, asked, request, operation, key, sized, gone) = accepted in
      (
        accepted,
        ap (claimed_broadcast decode_uri other_text) (get_pending-none again id max_age after gone),
      )
