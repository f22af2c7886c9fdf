-- ===== src/Js.antt =====
-- What the source uses of JavaScript's standard library on strings: white space, trimming,
-- searching, hexadecimal and decimal numerals, UTF-8. A string is its list of UTF-16 code units.
pub mod Numerals
pub mod Utf8
pub mod Value
use kalvora_js.Common.{
  ℕ, zero, suc, ◌+◌, ◌-◌, Bool, true, false, ◌&&◌, ◌||◌, List, [], ◌∷◌, ◌++◌, ltb, leb, ◌==◌,
  if◌then◌else◌, length, Text, text_eq, All, All-append, ◌≡◌, refl, ap, ◌∙◌,
}
use mathlib.Core.List.{reverse, reverse-reverse, reverse_aux}

-- The white space and line ends that `trim` and `parseInt` strip.
unfoldable pub is_space : ℕ → Bool
is_space c =
    (leb 9 c && leb c 13)
    || c == 0x20
    || c == 0xa0
    || c == 0x1680
    || (leb 0x2000 c && leb c 0x200a)
    || c == 0x2028
    || c == 0x2029
    || c == 0x202f
    || c == 0x205f
    || c == 0x3000
    || c == 0xfeff

unfoldable pub trim_start : Text → Text
trim_start [] = []
trim_start (c ∷ s) = if is_space c then trim_start s else c ∷ s

unfoldable pub trim : Text → Text
trim s = reverse (trim_start (reverse (trim_start s)))

unfoldable pub starts_with : Text → Text → Bool
starts_with [] s = true
starts_with (p ∷ ps) [] = false
starts_with (p ∷ ps) (c ∷ s) = p == c && starts_with ps s

-- `s.includes(word)`
unfoldable pub includes : Text → Text → Bool
unfolding starts_with
includes word [] = starts_with word []
includes word (c ∷ s) = starts_with word (c ∷ s) || includes word s

All-reverse_aux {ℓ} :
    (P : ℕ → Type ℓ) (xs ys : Text) → All P xs → All P ys → All P (reverse_aux xs ys)
All-reverse_aux P [] ys h k = k
All-reverse_aux P (x ∷ xs) ys (p, h) k = All-reverse_aux P xs (x ∷ ys) h (p, k)

trim_start_id : (s : Text) → All (λ c. is_space c ≡ false) s → trim_start s ≡ s
unfolding trim_start
trim_start_id [] h = refl
trim_start_id (c ∷ s) (p, h) = rw p

-- A text with no white space is its own trim.
pub trim_id : (s : Text) → All (λ c. is_space c ≡ false) s → trim s ≡ s
unfolding trim
trim_id s h =
    ap (λ t. reverse (trim_start (reverse t))) (trim_start_id s h)
    ∙ ap reverse (trim_start_id (reverse s) (All-reverse_aux _ s [] h tt))
    ∙ reverse-reverse s
