-- ===== src/ContractId/Codes.antt =====
-- src/protocol/contract-id.ts: each encoder is a prefix code, so concatenated fields can be told
-- apart.
use mathlib.Core.List.{flatten, append_assoc, append-nil}
use native.Mathlib.Nat.{div-eq_of_lt}
pub use kalvora_js.Common.{>>=-eq-ok}
use kalvora_js.Common.{
  ℕ, ◌/◌, ◌%◌, ◌^◌, ◌<◌, ◌≡◌, refl, sym, ap, ◌∙◌, List, [], ◌∷◌, ◌++◌, arith, Result, ok, length,
  length-append,
}
use kalvora_js.Common.Int.{ℤ, pos, negsuc}
use kalvora_js.Js.Utf8.{utf8}
use kalvora_js.Bytes.{Bytes, big_bytes, big_value_from, concat_bytes}
use kalvora_js.Bytes.Ints.{big_value-big_bytes, length-big_bytes}
use kalvora_js.Bytes.Arrays.{concat_bytes-flatten}
use kalvora_js.ContractId.{IdError, concat, u8, u32, u64, length_prefixed, prefixed_string}

pub concat-flatten : (parts : List Bytes) → concat parts ≡ flatten parts
unfolding concat concat_bytes
concat-flatten parts = concat_bytes-flatten parts

-- Two texts of one length, at the front of equal texts, are equal.
pub append-inj :
    (xs ys r s : Bytes) → length xs ≡ length ys → xs ++ r ≡ ys ++ s → (xs ≡ ys) × (r ≡ s)
append-inj [] [] r s e h = (refl, h)
append-inj [] (y ∷ ys) r s e h = absurd (omega arith)
append-inj (x ∷ xs) [] r s e h = absurd (omega arith)
append-inj (x ∷ xs) (y ∷ ys) r s e h = ground (arith, append-inj xs ys r s)

pub big_bytes-inj :
    (width m n : ℕ)
    → m < 256 ^ width
    → n < 256 ^ width
    → big_bytes width m ≡ big_bytes width n
    → m ≡ n
big_bytes-inj width m n hm hn e = sym (value m hm) ∙ ap (big_value_from 0) e ∙ value n hn
  where
    value : (k : ℕ) → k < 256 ^ width → big_value_from 0 (big_bytes width k) ≡ k
    value k h = rw (div-eq_of_lt h) at (big_value-big_bytes width k)

-- `encode` gives each value of `V` that a part of the input stands for its own self-delimiting
-- bytes: equal streams start with equal values and go on equally.
abbrev pub IsCode : {A V : Type 0} → (A → Result IdError Bytes) → (A → V) → Type 0
IsCode {A} encode view =
    (x y : A) (a b r s : Bytes)
    → encode x ≡ ok a
    → encode y ≡ ok b
    → a ++ r ≡ b ++ s
    → (view x ≡ view y) × (r ≡ s)

pub u8_ok : (v : ℤ) (a : Bytes) → u8 v ≡ ok a → (n : ℕ) × (v ≡ pos n) × (a ≡ n ∷ [])
unfolding u8
u8_ok (pos n) a h = (n, refl, ground arith)
u8_ok (negsuc n) a h = cc

pub u32_ok :
    (v : ℤ) (a : Bytes) → u32 v ≡ ok a → (n : ℕ) × (v ≡ pos n) × (n < 256 ^ 4) × (a ≡ big_bytes 4 n)
unfolding u32
u32_ok (pos n) a h = (n, refl, ground arith, ground arith)
u32_ok (negsuc n) a h = cc

pub u64_ok :
    (v : ℤ) (a : Bytes)
    → u64 v ≡ ok a
    → (n : ℕ) × (v ≡ pos n)
      × (n < 256 ^ 8)
      × (a ≡ big_bytes 4 (n / 2 ^ 32) ++ big_bytes 4 (n % 2 ^ 32))
unfolding u64
u64_ok (pos n) a h = (n, refl, ground arith, ground arith)
u64_ok (negsuc n) a h = cc

pub u8-IsCode : IsCode u8 (λ v. v)
u8-IsCode x y a b r s ha hb e =
    let (m, xm, am) = u8_ok x a ha in
    let (n, yn, bn) = u8_ok y b hb in (cc (xm, am, yn, bn), cc (xm, am, yn, bn))

pub u32-IsCode : IsCode u32 (λ v. v)
u32-IsCode x y a b r s ha hb e =
    let (m, xm, hm, am) = u32_ok x a ha in
    let (n, yn, hn, bn) = u32_ok y b hb in
    let (same, rest) =
      append-inj (big_bytes 4 m) (big_bytes 4 n) r s
        (rw (length-big_bytes 4 m, length-big_bytes 4 n)) (rw (am, bn) at e) in
    (xm ∙ ap pos (big_bytes-inj 4 m n hm hn same) ∙ sym yn, rest)

pub u64-IsCode : IsCode u64 (λ v. v)
u64-IsCode x y a b r s ha hb e =
    let (m, xm, hm, am) = u64_ok x a ha in
    let (n, yn, hn, bn) = u64_ok y b hb in
    let (same, rest) = append-inj (words m) (words n) r s (length-words m n) (rw (am, bn) at e) in
    let (high, low) =
      append-inj (big_bytes 4 (m / 2 ^ 32)) (big_bytes 4 (n / 2 ^ 32)) _ _ (length-big m n) same in
    let high' = big_bytes-inj 4 (m / 2 ^ 32) (n / 2 ^ 32) (omega arith) (omega arith) high in
    let low' = big_bytes-inj 4 (m % 2 ^ 32) (n % 2 ^ 32) (omega arith) (omega arith) low in
    (xm ∙ ap pos (omega arith) ∙ sym yn, rest)
  where
    words : ℕ → Bytes
    words n = big_bytes 4 (n / 2 ^ 32) ++ big_bytes 4 (n % 2 ^ 32)

    length-big : (m n : ℕ) → length (big_bytes 4 (m / 2 ^ 32)) ≡ length (big_bytes 4 (n / 2 ^ 32))
    length-big m n = rw (length-big_bytes 4 (m / 2 ^ 32), length-big_bytes 4 (n / 2 ^ 32))

    length-words : (m n : ℕ) → length (words m) ≡ length (words n)
    length-words m n = omega (
      arith,
      length-append (big_bytes 4 (m / 2 ^ 32)) (big_bytes 4 (m % 2 ^ 32)),
      length-append (big_bytes 4 (n / 2 ^ 32)) (big_bytes 4 (n % 2 ^ 32)),
      length-big_bytes 4 (m / 2 ^ 32),
      length-big_bytes 4 (m % 2 ^ 32),
      length-big_bytes 4 (n / 2 ^ 32),
      length-big_bytes 4 (n % 2 ^ 32),
    )

pub length_prefixed_ok :
    (bytes a : Bytes)
    → length_prefixed bytes ≡ ok a
    → (size : Bytes) × (u32 (pos (length bytes)) ≡ ok size) × (a ≡ size ++ bytes)
unfolding length_prefixed flatten
length_prefixed_ok bytes a h =
    let (size, hs, e) = >>=-eq-ok (u32 (pos (length bytes))) _ h in
    let e' : concat (size ∷ bytes ∷ []) ≡ a = cc e in
    (size, hs, sym e' ∙ concat-flatten (size ∷ bytes ∷ []) ∙ ap (λ t. size ++ t) (append-nil bytes))

pos-inj : (m n : ℕ) → pos m ≡ pos n → m ≡ n
pos-inj m n e = cc e

pub length_prefixed-IsCode : IsCode length_prefixed (λ bytes. bytes)
length_prefixed-IsCode x y a b r s ha hb e =
    let (size, hs, ea) = length_prefixed_ok x a ha in
    let (size', hs', eb) = length_prefixed_ok y b hb in
    let e' : size ++ (x ++ r) ≡ size' ++ (y ++ s) =
      sym (append_assoc size x r)
      ∙ sym (ap (λ t. t ++ r) ea)
      ∙ e
      ∙ ap (λ t. t ++ s) eb
      ∙ append_assoc size' y s in
    let (same, rest) = u32-IsCode _ _ size size' (x ++ r) (y ++ s) hs hs' e' in
    append-inj x y r s (pos-inj _ _ same) rest

pub prefixed_string-IsCode : IsCode prefixed_string utf8
unfolding prefixed_string
prefixed_string-IsCode x y a b r s ha hb e =
    length_prefixed-IsCode (utf8 x) (utf8 y) a b r s ha hb e
