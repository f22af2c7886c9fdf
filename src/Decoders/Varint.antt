-- ===== src/Decoders/Varint.antt =====
-- src/query/decoders.ts: `readVarint` reads what the wire format writes.
use native.Mathlib.Nat.{pow-suc}
use kalvora_js.Common.{
  ℕ, zero, suc, ◌+◌, ◌*◌, ◌/◌, ◌%◌, ◌^◌, ◌<◌, ◌≤◌, ◌≡◌, refl, ap, ◌∙◌, true, false, [], ◌∷◌, ◌++◌,
  ok, if◌then◌else◌, ltb, arith, Bool-cases, inl, inr,
}
use kalvora_js.Bytes.{Bytes}
use kalvora_js.Decoders.{read_from}

-- A number in groups of seven bits, the lowest first, each but the last with the bit of value 128 set;
-- at most `groups` of them before the last.
unfoldable pub varint_of : ℕ → ℕ → Bytes
varint_of zero n = n ∷ []
varint_of (suc groups) n =
    let more = varint_of groups (n / 128) in if ltb n 128 then n ∷ [] else (n % 128 + 128) ∷ more

-- Eight bytes hold all that the loop reads.
abbrev pub varint : ℕ → Bytes
varint n = varint_of 7 n

next_bit : (s k : ℕ) → 2 ^ (s + (k + 1)) ≡ 2 ^ (s + k) * 2
next_bit s k =
    let next : s + (k + 1) ≡ suc (s + k) = omega arith in ap (λ e. 2 ^ e) next ∙ pow-suc 2 (s + k)

spread : (v w q r : ℕ) → v + r * w + q * (w * 128) ≡ v + (q * 128 + r) * w
spread v w q r = grind arith

shift_group : (s : ℕ) → 2 ^ (s + 7) ≡ 2 ^ s * 128
shift_group s = omega (
  arith,
  next_bit s 0,
  next_bit s 1,
  next_bit s 2,
  next_bit s 3,
  next_bit s 4,
  next_bit s 5,
  next_bit s 6,
  start,
)
  where
    start : 2 ^ (s + 0) ≡ 2 ^ s
    start = ap (λ e. 2 ^ e) (omega arith)

regroup : (v w n : ℕ) → v + n % 128 * w + n / 128 * (w * 128) ≡ v + n * w
regroup v w n =
    let whole : n / 128 * 128 + n % 128 ≡ n = omega arith in
    spread v w (n / 128) (n % 128) ∙ ap (λ m. v + m * w) whole

read_last :
    (shift value n : ℕ) (rest : Bytes)
    → n < 128
    → read_from shift value (n ∷ rest) ≡ ok (value + n * 2 ^ shift, rest)
unfolding read_from
read_last shift value n rest h =
    let low : ltb n 128 ≡ true = ground arith in
    let same : n % 128 ≡ n = omega arith in rw (low, same) refl

read_more :
    (shift value r : ℕ) (bytes : Bytes)
    → r < 128
    → shift ≤ 42
    → read_from shift value ((r + 128) ∷ bytes)
      ≡ read_from (shift + 7) (value + r * 2 ^ shift) bytes
unfolding read_from
read_more shift value r bytes h room =
    let high : ltb (r + 128) 128 ≡ false = ground arith in
    let inside : ltb 49 (shift + 7) ≡ false = ground arith in
    let low : (r + 128) % 128 ≡ r = omega arith in rw (high, inside, low) refl

pub read_from-varint_of :
    (groups shift value n : ℕ) (rest : Bytes)
    → n < 128 ^ suc groups
    → shift + 7 * groups ≤ 49
    → read_from shift value (varint_of groups n ++ rest) ≡ ok (value + n * 2 ^ shift, rest)
unfolding varint_of
read_from-varint_of zero shift value n rest h room = read_last shift value n rest h
read_from-varint_of (suc groups) shift value n rest h room = elim (Bool-cases (ltb n 128)) [
  | inl low ↦ rw low (read_last shift value n rest (ground arith))
  | inr high ↦
      let smaller : n / 128 < 128 ^ suc groups = omega (arith, h, pow-suc 128 (suc groups)) in
      rw high (
        read_more shift value (n % 128) (varint_of groups (n / 128) ++ rest) (omega arith)
          (omega (arith, room))
        ∙ read_from-varint_of groups (shift + 7) (value + n % 128 * 2 ^ shift) (n / 128) rest
            smaller (omega (arith, room))
        ∙ ap (λ w. ok (value + n % 128 * 2 ^ shift + n / 128 * w, rest)) (shift_group shift)
        ∙ ap (λ v. ok (v, rest)) (regroup value (2 ^ shift) n))
]
