-- ===== src/Bridge/Dedup.antt =====
-- src/smart-contracts/use-cases/bridge/guardian/vaa.ts: `deduplicateVAA`.
use mathlib.Core.List.{zip}
use kalvora_js.Common.{
  ℕ, suc, ◌<◌, ◌≡◌, ◌≢◌, ◌⊎◌, inl, inr, refl, sym, ap, Bool, false, not, Option, none, some, List,
  [], ◌∷◌, arith, Result, ok, err, ◌>>◌, throw_if, ◌==◌, if◌then◌else◌, length, any, All, Text,
  text_eq, text_eq_iff, Bool-cases,
}

pub data VaaError : Type 0 where
  count_mismatch no_signatures : VaaError

abbrev seen_before : List Text → Text → Bool
seen_before seen sig = any (text_eq sig) seen

-- The loop: the pairs whose signature was not seen before, in order.
unfoldable pub dedup_loop : List Text → List Text → List Text → List (Text × Text)
dedup_loop seen [] keys = []
dedup_loop seen (sig ∷ sigs) [] = []
dedup_loop seen (sig ∷ sigs) (key ∷ keys) =
    let kept = dedup_loop (sig ∷ seen) sigs keys in
    let skipped = dedup_loop seen sigs keys in
    if seen_before seen sig then skipped else (sig, key) ∷ kept

-- The two returned arrays, as the list of their pairs.
unfoldable pub deduplicate_vaa : List Text → List Text → Result VaaError (List (Text × Text))
deduplicate_vaa signatures public_keys = do
  throw_if (not (length signatures == length public_keys)) count_mismatch
  throw_if (length signatures == 0) no_signatures
  ok (dedup_loop [] signatures public_keys)

-- The key that stands with the first occurrence of a signature.
unfoldable pub first_key : Text → List (Text × Text) → Option Text
first_key s [] = none
first_key s ((sig, key) ∷ pairs) = if text_eq sig s then some key else first_key s pairs

abbrev pub DistinctSignatures : List (Text × Text) → Type 0
DistinctSignatures [] = Unit
DistinctSignatures ((sig, key) ∷ pairs) = All (λ p. sig ≢ p.0) pairs × DistinctSignatures pairs

-- No kept pair has a signature that was seen before.
dedup_loop-unseen :
    (seen sigs keys : List Text)
    → All (λ (p : Text × Text). seen_before seen p.0 ≡ false) (dedup_loop seen sigs keys)
unfolding dedup_loop
dedup_loop-unseen seen [] keys = tt
dedup_loop-unseen seen (sig ∷ sigs) [] = tt
dedup_loop-unseen seen (sig ∷ sigs) (key ∷ keys) = elim (Bool-cases (seen_before seen sig)) [
  | inl old ↦ rw old (dedup_loop-unseen seen sigs keys)
  | inr new ↦
      rw new
        (new, weaker (dedup_loop (sig ∷ seen) sigs keys) (dedup_loop-unseen (sig ∷ seen) sigs keys))
]
  where
    weaker :
        (ps : List (Text × Text))
        → All (λ (p : Text × Text). seen_before (sig ∷ seen) p.0 ≡ false) ps
        → All (λ (p : Text × Text). seen_before seen p.0 ≡ false) ps
    weaker [] h = tt
    weaker (p ∷ ps) (h, hs) = (ground arith, weaker ps hs)

dedup_loop-Distinct : (seen sigs keys : List Text) → DistinctSignatures (dedup_loop seen sigs keys)
unfolding dedup_loop
dedup_loop-Distinct seen [] keys = tt
dedup_loop-Distinct seen (sig ∷ sigs) [] = tt
dedup_loop-Distinct seen (sig ∷ sigs) (key ∷ keys) = elim (Bool-cases (seen_before seen sig)) [
  | inl old ↦ rw old (dedup_loop-Distinct seen sigs keys)
  | inr new ↦ rw new (
    apart (dedup_loop (sig ∷ seen) sigs keys) (dedup_loop-unseen (sig ∷ seen) sigs keys),
    dedup_loop-Distinct (sig ∷ seen) sigs keys,
  )
]
  where
    apart :
        (ps : List (Text × Text))
        → All (λ (p : Text × Text). seen_before (sig ∷ seen) p.0 ≡ false) ps
        → All (λ p. sig ≢ p.0) ps
    apart [] h = tt
    apart (p ∷ ps) (h, hs) =
        ((λ e. absurd (ground (arith, text_eq_iff p.0 sig, sym e))), apart ps hs)

unseen-add :
    (sig s : Text) (seen : List Text)
    → text_eq sig s ≡ false
    → seen_before seen s ≡ false
    → seen_before (sig ∷ seen) s ≡ false
unseen-add sig s seen other h = elim (Bool-cases (text_eq s sig)) [
  | inl same ↦ absurd (cc (other, (text_eq_iff sig s).1 (sym ((text_eq_iff s sig).0 same))))
  | inr differ ↦ rw (differ, h) refl
]

-- What the loop keeps for a signature that was not seen before is its first key.
dedup_loop-first_key :
    (seen sigs keys : List Text) (s : Text)
    → length sigs ≡ length keys
    → seen_before seen s ≡ false
    → first_key s (dedup_loop seen sigs keys) ≡ first_key s (zip sigs keys)
unfolding dedup_loop first_key zip
dedup_loop-first_key seen [] [] s e h = refl
dedup_loop-first_key seen [] (k ∷ keys) s e h = absurd (omega arith)
dedup_loop-first_key seen (sig ∷ sigs) [] s e h = absurd (omega arith)
dedup_loop-first_key seen (sig ∷ sigs) (key ∷ keys) s e h =
    let skip = dedup_loop-first_key seen sigs keys s (omega arith) h in
    elim (Bool-cases (text_eq sig s)) [
      | inl same ↦ elim (Bool-cases (seen_before seen sig)) [
        | inl old ↦ absurd (cc (old, h, ap (seen_before seen) ((text_eq_iff sig s).0 same)))
        | inr new ↦ rw (new, same) refl
      ]
      | inr other ↦ elim (Bool-cases (seen_before seen sig)) [
        | inl old ↦ rw (old, other) skip
        | inr new ↦
            rw (new, other)
              (dedup_loop-first_key (sig ∷ seen) sigs keys s (omega arith)
                (unseen-add sig s seen other h))
      ]
    ]

suc-apart : (n : ℕ) → (0 == suc n) ≡ false
suc-apart n = ground arith

apart-suc : (n : ℕ) → (suc n == 0) ≡ false
apart-suc n = ground arith

-- Where the arrays have one length and are not empty, every signature is returned once, with the key
-- that stands with its first occurrence; otherwise the call throws, a mismatch before emptiness.
pub deduplicate_vaa-first :
    (signatures public_keys : List Text)
    → ((length signatures ≢ length public_keys)
        × (deduplicate_vaa signatures public_keys ≡ err count_mismatch))
      ⊎ ((signatures ≡ [])
          × (public_keys ≡ [])
          × (deduplicate_vaa signatures public_keys ≡ err no_signatures))
      ⊎ ((length signatures ≡ length public_keys)
          × (0 < length signatures)
          × ((kept : List (Text × Text)) × (deduplicate_vaa signatures public_keys ≡ ok kept)
              × DistinctSignatures kept
              × ((s : Text) → first_key s kept ≡ first_key s (zip signatures public_keys))))
unfolding deduplicate_vaa
deduplicate_vaa-first [] [] = inr (inl (refl, refl, refl))
deduplicate_vaa-first [] (k ∷ ks) = inl (ground arith, rw (suc-apart (length ks)) refl)
deduplicate_vaa-first (s ∷ ss) ks = elim (Bool-cases (length (s ∷ ss) == length ks)) [
  | inl same ↦ inr (
      inr (
        ground arith,
        omega arith,
        (
          dedup_loop [] (s ∷ ss) ks,
          rw (same, apart-suc (length ss)) refl,
          dedup_loop-Distinct [] (s ∷ ss) ks,
          λ t. dedup_loop-first_key [] (s ∷ ss) ks t (ground arith) refl,
        ),
      ))
  | inr differ ↦ inl (ground arith, rw differ refl)
]
