-- ===== src/ContractId/Toy.antt =====
-- src/protocol/contract-id.ts: a hash and a codec with the documented behaviour, for examples.
use mathlib.Core.Path.{ap₂, subst}
use kalvora_js.Common.{
  ℕ, zero, suc, ◌+◌, ◌%◌, ◌≡◌, refl, ap, true, false, some, [], ◌∷◌, map, arith, not, All, Text,
  length, replicate, all_below, all_below_sound,
}
use kalvora_js.Js.{is_space}
use kalvora_js.Bytes.{Bytes, IsBytes, IsByte}
use kalvora_js.ContractId.{Primitives}
use kalvora_js.ContractId.Canonical.{Documented}

-- A hash of 32 bytes, and a codec with one character for a byte.
abbrev pub toy : Primitives
toy = record {
  blake3 = λ b. replicate 32 (length b % 256);
  bs58_encode = map (λ x. 256 + x % 256);
  bs58_decode = λ t. some (map (λ c. c % 256) t);
}

pub All-replicate : (n x : ℕ) → IsByte x → IsBytes (replicate n x)
All-replicate zero x h = tt
All-replicate (suc n) x h = (h, All-replicate n x h)

pub length-replicate_lem : (n x : ℕ) → length (replicate n x) ≡ n
length-replicate_lem zero x = refl
length-replicate_lem (suc n) x = ap suc (length-replicate_lem n x)

map-back : (b : Bytes) → IsBytes b → map (λ c. c % 256) (map (λ x. 256 + x % 256) b) ≡ b
map-back [] h = refl
map-back (x ∷ b) (hx, h) = ap₂ (λ y ys. y ∷ ys) (omega arith) (map-back b h)

map-IsBytes : (t : Text) → IsBytes (map (λ c. c % 256) t)
map-IsBytes [] = tt
map-IsBytes (c ∷ t) = (omega arith, map-IsBytes t)

decoded-IsBytes : (t : Text) (b : Bytes) → some (map (λ c. c % 256) t) ≡ some b → IsBytes b
decoded-IsBytes t b e = subst IsBytes (cc e) (map-IsBytes t)

no_space_table : all_below 256 (λ x. not (is_space (256 + x))) ≡ true
unfolding all_below is_space
no_space_table = refl

map-no_space : (b : Bytes) → All (λ c. is_space c ≡ false) (map (λ x. 256 + x % 256) b)
map-no_space [] = tt
map-no_space (x ∷ b) = (
  ground (
    arith,
    all_below_sound 256 (λ y. not (is_space (256 + y))) no_space_table (x % 256) (omega arith),
  ),
  map-no_space b,
)

pub toy-Documented : Documented toy
toy-Documented = record {
  length-blake3 = λ b. length-replicate_lem 32 (length b % 256);
  blake3-IsBytes = λ b. All-replicate 32 (length b % 256) (omega arith);
  decode-encode = λ b h. ap some (map-back b h);
  decode-nil = refl;
  decode-IsBytes = λ t b e. decoded-IsBytes t b e;
  encode-no_space = map-no_space;
}
