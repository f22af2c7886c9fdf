-- ===== src/Js/Utf8.antt =====
-- `TextEncoder.encode`: UTF-8 of a string of UTF-16 code units. A surrogate with no partner is
-- encoded as U+FFFD.
use kalvora_js.Common.{
  ℕ, ◌+◌, ◌-◌, ◌*◌, ◌/◌, ◌%◌, ◌<◌, ◌≡◌, refl, Bool, ◌&&◌, List, [], ◌∷◌, ◌++◌, arith, ltb, leb,
  if◌then◌else◌, Text, All, lt→ltb,
}

abbrev is_high : ℕ → Bool
is_high c = leb 0xd800 c && leb c 0xdbff

abbrev is_low : ℕ → Bool
is_low c = leb 0xdc00 c && leb c 0xdfff

-- A continuation byte.
abbrev tail_byte : ℕ → ℕ
tail_byte n = 0x80 + n % 64

unfoldable pub encode_unit : ℕ → List ℕ
encode_unit c =
    if ltb c 0x80
    then c ∷ []
    else if ltb c 0x800
    then (0xc0 + c / 64) ∷ tail_byte c ∷ []
    else if leb 0xd800 c && leb c 0xdfff
    then 0xef ∷ 0xbf ∷ 0xbd ∷ []
    else (0xe0 + c / 4096) ∷ tail_byte (c / 64) ∷ tail_byte c ∷ []

unfoldable pub encode_pair : ℕ → ℕ → List ℕ
encode_pair c d =
    let n = 0x10000 + (c - 0xd800) * 0x400 + (d - 0xdc00) in
    (0xf0 + n / 262144) ∷ tail_byte (n / 4096) ∷ tail_byte (n / 64) ∷ tail_byte n ∷ []

unfoldable pub utf8 : Text → List ℕ
unfolding encode_unit encode_pair
utf8 [] = []
utf8 (c ∷ []) = encode_unit c
utf8 (c ∷ d ∷ s) =
    let paired = encode_pair c d ++ utf8 s in
    let single = encode_unit c ++ utf8 (d ∷ s) in if is_high c && is_low d then paired else single

-- ASCII text is its own encoding.
pub utf8_ascii : (s : Text) → All (λ c. c < 0x80) s → utf8 s ≡ s
unfolding utf8
utf8_ascii [] h = refl
utf8_ascii (c ∷ []) (p, h) = rw (lt→ltb _ _ p)
utf8_ascii (c ∷ d ∷ s) (p, h) = ground (arith, utf8_ascii (d ∷ s) h)
