-- ===== src/Bridge/Solana/Signatures.antt =====
-- src/smart-contracts/use-cases/bridge/guardian/vaa.ts: the signatures that go from `fetchSolanaVAA`
-- into the requests of `submitVAAToSolana`.
use mathlib.Core.Path.{subst}
use mathlib.Core.List.{zip}
use kalvora_js.Common.{◌≡◌, refl, sym, ap, ◌∙◌, List, [], ◌∷◌, map, ok, Text, inl, inr}
use kalvora_js.Bridge.Dedup.{deduplicate_vaa-first, first_key, DistinctSignatures}
use kalvora_js.Bridge.Payload.{
  Response, solana_payload, kalvora_payload, no_payload, SolanaPayload, solana_of_response,
}
use kalvora_js.Bridge.Solana.{guardian_signatures}

-- Taking pairs apart and pairing by index again gives the pairs.
guardian_signatures-pairs :
    (kept : List (Text × Text))
    → guardian_signatures (map (λ pair. pair.0) kept) (map (λ pair. pair.1) kept) ≡ kept
unfolding guardian_signatures
guardian_signatures-pairs [] = refl
guardian_signatures-pairs ((sig, key) ∷ kept) =
    ap (λ t. (sig, key) ∷ t) (guardian_signatures-pairs kept)

abbrev taken : SolanaPayload → List (Text × Text) → SolanaPayload
taken p kept = record {
  payload = p.payload;
  signatures = map (λ pair. pair.0) kept;
  public_keys = map (λ pair. pair.1) kept;
  timestamp = p.timestamp;
  signed_hash = p.signed_hash;
}

-- A response that is accepted holds a Solana payload, which is passed on; the signatures of what is
-- submitted are then pairwise distinct, and each stands with the key of its first occurrence.
pub solana_of_response-signatures :
    {E : Type 0} (response : Response) (fetched : SolanaPayload)
    → solana_of_response {E = E} response ≡ ok fetched
    → (p : SolanaPayload) × (response ≡ solana_payload p)
      × (fetched.payload ≡ p.payload)
      × (fetched.signed_hash ≡ p.signed_hash)
      × DistinctSignatures (guardian_signatures fetched.signatures fetched.public_keys)
      × ((s : Text)
          → first_key s (guardian_signatures fetched.signatures fetched.public_keys)
            ≡ first_key s (zip p.signatures p.public_keys))
unfolding solana_of_response
solana_of_response-signatures (solana_payload p) fetched h =
    elim (deduplicate_vaa-first p.signatures p.public_keys) [
      | inl (_, refused) ↦ cc (rw refused at h)
      | inr (inl (_, _, refused)) ↦ cc (rw refused at h)
      | inr (inr (_, _, (kept, made, distinct, first))) ↦
          let same : taken p kept ≡ fetched = cc (rw made at h) in
          let pairs : guardian_signatures fetched.signatures fetched.public_keys ≡ kept =
            ap (λ q. guardian_signatures q.signatures q.public_keys) (sym same)
            ∙ guardian_signatures-pairs kept in
          (
            p,
            refl,
            ap (λ q. q.payload) (sym same),
            ap (λ q. q.signed_hash) (sym same),
            subst DistinctSignatures (sym pairs) distinct,
            λ s. ap (first_key s) pairs ∙ first s,
          )
    ]
solana_of_response-signatures (kalvora_payload p) fetched h = cc h
solana_of_response-signatures no_payload fetched h = cc h
