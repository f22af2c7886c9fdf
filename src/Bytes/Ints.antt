-- ===== src/Bytes/Ints.antt =====
-- src/shared/utils/byte-utils.ts: the integer encoders against the decoders.
use mathlib.Core.List.{reverse, reverse-append}
use native.Mathlib.Nat.{
  div-div-eq-div-mul, div-eq_of_lt, lt-div-mul-add, mod-eq_of_lt, pow-suc, pow-succ', one-le-pow,
}
use kalvora_js.Common.{
  ℕ, zero, suc, ◌+◌, ◌*◌, ◌/◌, ◌%◌, ◌^◌, ◌<◌, ◌≡◌, refl, sym, ap, ◌∙◌, Bool, true, false, [], ◌∷◌,
  ◌++◌, arith, ok, length,
}
use kalvora_js.Common.Int.{ℤ, pos, negsuc}
use kalvora_js.Bytes.{
  Bytes, IsBytes, wrap, little_bytes, big_bytes, little_value, big_value_from, set_uint, get_uint,
  encode_u64_le, encode_u64_be, encode_u32_le, encode_u32_be, encode_u16_le, encode_u16_be,
  decode_u64_le, decode_u64_be, decode_u32_le,
}

pub wrap-lt : (m : ℕ) (v : ℤ) → 0 < m → wrap m v < m
unfolding wrap
wrap-lt m (pos n) h = omega arith
wrap-lt m (negsuc n) h = omega arith

pub length-little_bytes : (width n : ℕ) → length (little_bytes width n) ≡ width
unfolding little_bytes
length-little_bytes zero n = refl
length-little_bytes (suc width) n = ap suc (length-little_bytes width (n / 256))

pub length-big_bytes : (width n : ℕ) → length (big_bytes width n) ≡ width
unfolding big_bytes
length-big_bytes zero n = refl
length-big_bytes (suc width) n = ap suc (length-big_bytes width n)

pub big_bytes-IsBytes : (width n : ℕ) → IsBytes (big_bytes width n)
unfolding big_bytes
big_bytes-IsBytes zero n = tt
big_bytes-IsBytes (suc width) n = (omega arith, big_bytes-IsBytes width n)

little_value-little_bytes :
    (width n : ℕ) → n < 256 ^ width → little_value (little_bytes width n) ≡ n
unfolding little_bytes little_value
little_value-little_bytes zero n h = omega arith
little_value-little_bytes (suc width) n h =
    omega (arith, little_value-little_bytes width (n / 256) (omega arith))

pub big_value-big_bytes : (width n : ℕ) → big_value_from (n / 256 ^ width) (big_bytes width n) ≡ n
unfolding big_bytes big_value_from
big_value-big_bytes zero n = omega arith
big_value-big_bytes (suc width) n =
    let quotient : n / 256 ^ width / 256 ≡ n / 256 ^ suc width =
      div-div-eq-div-mul n (256 ^ width) 256 ∙ ap (λ t. n / t) (sym (pow-suc 256 width)) in
    rw (← quotient)
      (ap (λ t. big_value_from t (big_bytes width n)) (omega arith) ∙ big_value-big_bytes width n)

get_uint-set_uint :
    (width : ℕ) (v : ℤ) (little : Bool)
    → get_uint (set_uint width v little) little ≡ wrap (256 ^ width) v
unfolding get_uint set_uint
get_uint-set_uint width v true =
    little_value-little_bytes width _ (wrap-lt _ v (one-le-pow width 256 (omega arith)))
get_uint-set_uint width v false =
    rw (← div-eq_of_lt (wrap-lt (256 ^ width) v (one-le-pow width 256 (omega arith))))
      (big_value-big_bytes width _)

little_bytes-little_value :
    (bs : Bytes) → IsBytes bs → little_bytes (length bs) (little_value bs) ≡ bs
unfolding little_bytes little_value
little_bytes-little_value [] h = refl
little_bytes-little_value (b ∷ bs) (hb, h) =
    let low : (b + 256 * little_value bs) % 256 ≡ b = omega arith in
    let high : (b + 256 * little_value bs) / 256 ≡ little_value bs = omega arith in
    rw (low, high) (ap (λ t. b ∷ t) (little_bytes-little_value bs h))

-- One more byte of a little-endian encoding stands at its end.
little_bytes-suc :
    (width n : ℕ)
    → little_bytes (suc width) n ≡ little_bytes width n ++ (n / 256 ^ width % 256) ∷ []
unfolding little_bytes
little_bytes-suc zero n = ap (λ t. t ∷ []) (omega arith)
little_bytes-suc (suc width) n =
    let quotient : n / 256 / 256 ^ width ≡ n / 256 ^ suc width =
      div-div-eq-div-mul n 256 (256 ^ width) ∙ ap (λ t. n / t) (sym (pow-succ' 256 width)) in
    rw (← quotient) (ap (λ t. n % 256 ∷ t) (little_bytes-suc width (n / 256)))

big_bytes-eq-reverse : (width n : ℕ) → big_bytes width n ≡ reverse (little_bytes width n)
unfolding big_bytes
big_bytes-eq-reverse zero n = unfold little_bytes in refl
big_bytes-eq-reverse (suc width) n =
    rw (little_bytes-suc width n, reverse-append)
      (ap (λ t. n / 256 ^ width % 256 ∷ t) (big_bytes-eq-reverse width n))

little_value-lt : (bs : Bytes) → IsBytes bs → little_value bs < 256 ^ length bs
unfolding little_value
little_value-lt [] h = omega arith
little_value-lt (b ∷ bs) (hb, h) =
    rw (pow-suc 256 (length bs)) (omega (arith, little_value-lt bs h))

pub big_value-div : (a : ℕ) (bs : Bytes) → IsBytes bs → big_value_from a bs / 256 ^ length bs ≡ a
unfolding big_value_from
big_value-div a [] h = omega arith
big_value-div a (b ∷ bs) (hb, h) =
    let quotient : big_value_from (a * 256 + b) bs / 256 ^ length bs / 256
        ≡ big_value_from (a * 256 + b) bs / 256 ^ suc (length bs) =
      div-div-eq-div-mul _ (256 ^ length bs) 256
      ∙ ap (λ t. big_value_from (a * 256 + b) bs / t) (sym (pow-suc 256 (length bs))) in
    rw (← quotient, big_value-div (a * 256 + b) bs h) (omega arith)

pub big_bytes-big_value :
    (a : ℕ) (bs : Bytes) → IsBytes bs → big_bytes (length bs) (big_value_from a bs) ≡ bs
unfolding big_bytes big_value_from
big_bytes-big_value a [] h = refl
big_bytes-big_value a (b ∷ bs) (hb, h) =
    let top : (a * 256 + b) % 256 ≡ b = omega arith in
    rw (big_value-div (a * 256 + b) bs h, top)
      (ap (λ t. b ∷ t) (big_bytes-big_value (a * 256 + b) bs h))

big_value-lt : (bs : Bytes) → IsBytes bs → big_value_from 0 bs < 256 ^ length bs
big_value-lt bs h =
    let below =
      lt-div-mul-add {a = big_value_from 0 bs} (one-le-pow (length bs) 256 (omega arith)) in
    omega (arith, rw (big_value-div 0 bs h) at below)

length-set_uint : (width : ℕ) (v : ℤ) (little : Bool) → length (set_uint width v little) ≡ width
unfolding set_uint
length-set_uint width v true = length-little_bytes width _
length-set_uint width v false = length-big_bytes width _

-- Each decoder returns the encoded integer modulo its width, so any integer of the range comes back.
pub decode-encode :
    (v : ℤ)
    → (decode_u64_le (encode_u64_le v) ≡ ok (wrap (2 ^ 64) v))
      × (decode_u64_be (encode_u64_be v) ≡ ok (wrap (2 ^ 64) v))
      × (decode_u32_le (encode_u32_le v) ≡ ok (wrap (2 ^ 32) v))
unfolding decode_u64_le decode_u64_be decode_u32_le encode_u64_le encode_u64_be encode_u32_le
decode-encode v = (
  rw (length-set_uint 8 v true) (ap ok (get_uint-set_uint 8 v true)),
  rw (length-set_uint 8 v false) (ap ok (get_uint-set_uint 8 v false)),
  rw (length-set_uint 4 v true) (ap ok (get_uint-set_uint 4 v true)),
)

-- The big-endian encoding is the little-endian one backwards, at every width.
encode_be-eq-reverse :
    (v : ℤ)
    → (encode_u64_be v ≡ reverse (encode_u64_le v))
      × (encode_u32_be v ≡ reverse (encode_u32_le v))
      × (encode_u16_be v ≡ reverse (encode_u16_le v))
unfolding set_uint encode_u64_le encode_u64_be encode_u32_le encode_u32_be encode_u16_le
    encode_u16_be
encode_be-eq-reverse v =
    (big_bytes-eq-reverse 8 _, big_bytes-eq-reverse 4 _, big_bytes-eq-reverse 2 _)

set_uint-get_uint :
    (bs : Bytes) (little : Bool)
    → IsBytes bs
    → set_uint (length bs) (pos (get_uint bs little)) little ≡ bs
unfolding set_uint get_uint
set_uint-get_uint bs true h =
    rw (mod-eq_of_lt (little_value-lt bs h)) (little_bytes-little_value bs h)
set_uint-get_uint bs false h = rw (mod-eq_of_lt (big_value-lt bs h)) (big_bytes-big_value 0 bs h)

-- Every array of eight bytes decodes, in either byte order, to a number whose encoding in that
-- order is the array.
encode-decode :
    (bs : Bytes)
    → IsBytes bs
    → length bs ≡ 8
    → (decode_u64_le bs ≡ ok (little_value bs))
      × (encode_u64_le (pos (little_value bs)) ≡ bs)
      × (decode_u64_be bs ≡ ok (big_value_from 0 bs))
      × (encode_u64_be (pos (big_value_from 0 bs)) ≡ bs)
unfolding decode_u64_le decode_u64_be encode_u64_le encode_u64_be get_uint
encode-decode bs h size = (
  rw size,
  rw (← size) (set_uint-get_uint bs true h),
  rw size,
  rw (← size) (set_uint-get_uint bs false h),
)
