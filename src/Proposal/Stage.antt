-- ===== src/Proposal/Stage.antt =====
-- src/proposal/shape.ts: the surcharge for the pre-governance stage rounds up. And
-- src/proposal/governance.ts: when a proposal may set its start and end.
use native.Mathlib.Nat.{lt-div-mul-add, div-mul-le_self}
use kalvora_js.Common.{
  ℕ, zero, suc, ◌+◌, ◌-◌, ◌*◌, ◌/◌, ◌<◌, ◌≤◌, ◌≡◌, ◌↔◌, ◌⊎◌, inl, inr, refl, ap, Bool, true, false,
  Option, none, some, arith, ok, ◌==◌,
}
use kalvora_js.Common.Int.{ℤ, pos, ◌+ℤ◌, ◌≤ℤ◌}
use kalvora_js.Js.Numerals.{to_string}
use kalvora_js.Js.Numerals.Printing.{parse_bigint-to_string}
use kalvora_js.Proposal.{stage_divisor, apply_stage_fee, div_trunc, Window, assert_adaptive_window}

-- Stages with a length, and the pre-governance stage; two where the contract has no lengths.
abbrev pub stages : ℕ → ℕ
stages zero = 2
stages (suc n) = suc n + 1

stage_divisor-stages : (n : ℕ) → stage_divisor (pos n) true ≡ ok (stages n)
unfolding stage_divisor
stage_divisor-stages zero = refl
stage_divisor-stages (suc n) = ground arith

stages-pos : (n : ℕ) → 1 < stages n
stages-pos zero = omega arith
stages-pos (suc n) = omega arith

pos-add : (a b : ℕ) → pos a +ℤ pos b ≡ pos (a + b)
unfolding ◌+ℤ◌
pos-add a b = ground arith

with_divisor :
    (fee d : ℕ)
    → 0 < d
    → pos fee +ℤ div_trunc (pos fee +ℤ pos (d - 1)) d ≡ pos (fee + (fee + (d - 1)) / d)
with_divisor fee d h = rw (pos-add fee (d - 1), pos-add fee ((fee + (d - 1)) / d))

nonzero : (d : ℕ) → 0 < d → (d == 0) ≡ false
nonzero d h = ground arith

-- A fee that is printed as a decimal numeral is raised by the least whole number of parts that,
-- taken once for each stage, covers it.
apply_stage_fee-ceil :
    (fee n : ℕ)
    → (extra : ℕ) × (apply_stage_fee (to_string fee) (pos n) true ≡ ok (pos (fee + extra)))
      × (fee ≤ extra * stages n)
      × (extra * stages n < fee + stages n)
unfolding apply_stage_fee
apply_stage_fee-ceil fee n =
    let d = stages n in
    let h = stages-pos n in
    (
      (fee + (d - 1)) / d,
      rw (stage_divisor-stages n, parse_bigint-to_string fee)
          (rw (nonzero d (omega arith)) (ap ok (with_divisor fee d (omega arith)))),
      omega (arith, lt-div-mul-add {a = fee + (d - 1)} {b = d} (omega arith), h),
      omega (arith, div-mul-le_self (fee + (d - 1)) d, h),
    )

abbrev Accepted : Option Bool → Option ℤ → Option ℤ → Type 0
Accepted adaptive start end =
    (adaptive ≡ none)
    ⊎ ((adaptive ≡ some false) × (start ≡ none) × (end ≡ none))
    ⊎ ((adaptive ≡ some true) × ((a b : ℤ) × (start ≡ some a) × (end ≡ some b) × (a ≤ℤ b)))

abbrev window : Option Bool → Option ℤ → Option ℤ → Window
window adaptive start end = record { adaptive = adaptive; start = start; end = end }

window_to :
    (adaptive : Option Bool) (start end : Option ℤ)
    → assert_adaptive_window (window adaptive start end) ≡ ok tt
    → Accepted adaptive start end
unfolding assert_adaptive_window
window_to none start end h = inl refl
window_to (some false) none none h = inr (inl (refl, refl, refl))
window_to (some false) none (some b) h = cc h
window_to (some false) (some a) end h = cc h
window_to (some true) none end h = cc h
window_to (some true) (some a) none h = cc h
window_to (some true) (some a) (some b) h = inr (inr (refl, (a, b, refl, refl, ground arith)))

window_from :
    (adaptive : Option Bool) (start end : Option ℤ)
    → Accepted adaptive start end
    → assert_adaptive_window (window adaptive start end) ≡ ok tt
unfolding assert_adaptive_window
window_from none start end r = refl
window_from (some false) start end (inl e) = cc e
window_from (some false) start end (inr (inl (e, s, t))) = rw (s, t)
window_from (some false) start end (inr (inr (e, r))) = cc e
window_from (some true) start end (inl e) = cc e
window_from (some true) start end (inr (inl (e, s, t))) = cc e
window_from (some true) start end (inr (inr (e, (a, b, s, t, le)))) = rw (s, t) (ground arith)

-- The window is accepted exactly so: adaptive governance sets both times in order, other governance
-- sets none, and nothing is checked without a snapshot.
assert_adaptive_window_iff :
    (w : Window)
    → (assert_adaptive_window w ≡ ok tt) ↔ (
        (w.adaptive ≡ none)
        ⊎ ((w.adaptive ≡ some false) × (w.start ≡ none) × (w.end ≡ none))
        ⊎ ((w.adaptive ≡ some true)
            × ((start end : ℤ) × (w.start ≡ some start) × (w.end ≡ some end) × (start ≤ℤ end))))
assert_adaptive_window_iff w =
    (window_to w.adaptive w.start w.end, window_from w.adaptive w.start w.end)
