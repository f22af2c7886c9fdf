-- ===== src/Hd/Path.antt =====
-- src/wallet-creation/hd-utils.ts and src/wallet-creation/crypto-core.ts: the paths that are built are
-- read back as their indices.
use mathlib.Core.List.{append-nil}
use mathlib.Core.Path.{ap₂}
use kalvora_js.Common.{
  ℕ, ◌≡◌, refl, sym, ap, ◌∙◌, true, false, ◌||◌, Option, some, List, [], ◌∷◌, ◌++◌, map, Text,
  codes, ok, ◌==◌, ==_iff, All, all, drop, arith,
}
use kalvora_js.Common.Int.{ℤ, pos}
use kalvora_js.Js.{starts_with, trim_start}
use kalvora_js.Js.Numerals.{to_string, parse_int_10}
use kalvora_js.Js.Numerals.Printing.{
  to_string-digits, to_string-IsDigit, IsDigit, parse_int_10-to_string, digit-no_space, no_sign,
}
use kalvora_js.Hd.{
  ends_with_quote, without_last, split_slashes, add_to_first, parse_int, after_sign, segment_index,
  harden, parse_derivation_path, is_number, validate_slip0010_path, segment, path_text, master_path,
  kalvora_type,
}

no_hex :
    (c : ℕ) (s : Text)
    → All IsDigit (c ∷ s)
    → (starts_with (codes "0x") (c ∷ s) || starts_with (codes "0X") (c ∷ s)) ≡ false
unfolding starts_with
no_hex c [] h = ground arith
no_hex c (d ∷ s) h = ground arith

no_sign_kept : (c : ℕ) (s : Text) → All IsDigit (c ∷ s) → after_sign (trim_start (c ∷ s)) ≡ c ∷ s
unfolding starts_with trim_start
no_sign_kept c s (p, h) =
    let (minus, plus) = no_sign c p in rw (digit-no_space c p, trim_start) (rw (minus, plus) refl)

parse_int-digits :
    (c : ℕ) (s : Text) → All IsDigit (c ∷ s) → parse_int (c ∷ s) ≡ parse_int_10 (c ∷ s)
unfolding parse_int
parse_int-digits c s h = rw (no_sign_kept c s h) (rw (no_hex c s h) refl)

-- `parseInt(n.toString())` is `n`, with no base given.
pub parse_int-to_string : (n : ℕ) → parse_int (to_string n) ≡ some (pos n)
parse_int-to_string n =
    let (c, s, e, digits, whole) = to_string-digits n in
    ap parse_int e
    ∙ parse_int-digits c s digits
    ∙ ap parse_int_10 (sym e)
    ∙ parse_int_10-to_string n

abbrev pub quoted : ℕ → Text
quoted n = to_string n ++ codes "'"

ends_with_quote-append : (t : Text) → ends_with_quote (t ++ codes "'") ≡ true
unfolding ends_with_quote
ends_with_quote-append [] = refl
ends_with_quote-append (c ∷ []) = refl
ends_with_quote-append (c ∷ d ∷ t) = ends_with_quote-append (d ∷ t)

without_last-append : (t : Text) → without_last (t ++ codes "'") ≡ t
unfolding without_last
without_last-append [] = refl
without_last-append (c ∷ []) = refl
without_last-append (c ∷ d ∷ t) = ap (λ s. c ∷ s) (without_last-append (d ∷ t))

segment_index-quoted : (n : ℕ) → segment_index (quoted n) ≡ harden (some (pos n))
unfolding segment_index
segment_index-quoted n = rw (ends_with_quote-append (to_string n)) (
    ap (λ t. harden (parse_int t)) (without_last-append (to_string n))
    ∙ ap harden (parse_int-to_string n))

abbrev NoSlash : Text → Type 0
NoSlash t = All (λ c. (c == b'/') ≡ false) t

split_slashes-append :
    (t s : Text) → NoSlash t → split_slashes (t ++ b'/' ∷ s) ≡ t ∷ split_slashes s
unfolding split_slashes
split_slashes-append [] s h = refl
split_slashes-append (c ∷ t) s (p, h) =
    rw (p, split_slashes) (ap (add_to_first c) (split_slashes-append t s h))

split_slashes-last : (t : Text) → NoSlash t → split_slashes t ≡ t ∷ []
unfolding split_slashes
split_slashes-last [] h = refl
split_slashes-last (c ∷ t) (p, h) =
    rw (p, split_slashes) (ap (add_to_first c) (split_slashes-last t h))

digits-NoSlash : (t : Text) → All IsDigit t → NoSlash (t ++ codes "'")
digits-NoSlash [] h = (refl, tt)
digits-NoSlash (c ∷ t) (p, h) = (ground arith, digits-NoSlash t h)

abbrev pub segments : List ℕ → Text
segments [] = []
segments (n ∷ ns) = b'/' ∷ quoted n ++ segments ns

split_slashes-segments :
    (t : Text) (ns : List ℕ) → NoSlash t → split_slashes (t ++ segments ns) ≡ t ∷ map quoted ns
split_slashes-segments t [] h = ap split_slashes (append-nil t) ∙ split_slashes-last t h
split_slashes-segments t (n ∷ ns) h =
    split_slashes-append t (quoted n ++ segments ns) h
    ∙ ap (λ l. t ∷ l)
        (split_slashes-segments (quoted n) ns (digits-NoSlash (to_string n) (to_string-IsDigit n)))

map-segment_index :
    (ns : List ℕ) → map segment_index (map quoted ns) ≡ map (λ n. harden (some (pos n))) ns
map-segment_index [] = refl
map-segment_index (n ∷ ns) = ap₂ (λ i l. i ∷ l) (segment_index-quoted n) (map-segment_index ns)

split_path : (ns : List ℕ) → split_slashes (b'm' ∷ segments ns) ≡ codes "m" ∷ map quoted ns
split_path ns = split_slashes-segments (codes "m") ns (refl, tt)

parse_segments :
    (n : ℕ) (ns : List ℕ)
    → parse_derivation_path (b'm' ∷ segments (n ∷ ns))
      ≡ ok (map (λ k. harden (some (pos k))) (n ∷ ns))
unfolding parse_derivation_path starts_with
parse_segments n ns =
    ap (λ l. ok (map segment_index (drop 1 l))) (split_path (n ∷ ns))
    ∙ ap ok (map-segment_index (n ∷ ns))

path_text-segments :
    (a c d : ℕ)
    → path_text (pos a) (pos c) (pos d) ≡ b'm' ∷ segments (44 ∷ kalvora_type ∷ a ∷ c ∷ d ∷ [])
path_text-segments a c d =
    ap
      (λ t.
        b'm' ∷ segment (pos 44)
        ++ (segment (pos kalvora_type) ++ (segment (pos a) ++ (segment (pos c) ++ t))))
      (ap (λ t. b'/' ∷ t) (sym (append-nil (quoted d))))

master_path-segments : master_path ≡ b'm' ∷ segments (44 ∷ kalvora_type ∷ [])
master_path-segments =
    ap (λ t. b'm' ∷ segment (pos 44) ++ t)
      (ap (λ t. b'/' ∷ t) (sym (append-nil (quoted kalvora_type))))

abbrev pub hardened : ℕ → Option ℤ
hardened n = harden (some (pos n))

-- The path that is built for an account, a change and an address is read back as its five indices,
-- each with the offset of a hardened one.
pub parse-path_text :
    (a c d : ℕ)
    → parse_derivation_path (path_text (pos a) (pos c) (pos d))
      ≡ ok (hardened 44 ∷ hardened kalvora_type ∷ hardened a ∷ hardened c ∷ hardened d ∷ [])
parse-path_text a c d =
    ap parse_derivation_path (path_text-segments a c d)
    ∙ parse_segments 44 (kalvora_type ∷ a ∷ c ∷ d ∷ [])

pub parse-master_path :
    parse_derivation_path master_path ≡ ok (hardened 44 ∷ hardened kalvora_type ∷ [])
parse-master_path =
    ap parse_derivation_path master_path-segments ∙ parse_segments 44 (kalvora_type ∷ [])

pub split_slashes-path_text :
    (a c d : ℕ)
    → split_slashes (path_text (pos a) (pos c) (pos d))
      ≡ codes "m" ∷ map quoted (44 ∷ kalvora_type ∷ a ∷ c ∷ d ∷ [])
split_slashes-path_text a c d =
    ap split_slashes (path_text-segments a c d) ∙ split_path (44 ∷ kalvora_type ∷ a ∷ c ∷ d ∷ [])

all-quoted : (ns : List ℕ) → all ends_with_quote (map quoted ns) ≡ true
all-quoted [] = refl
all-quoted (n ∷ ns) = rw (ends_with_quote-append (to_string n)) (all-quoted ns)

==_refl : (n : ℕ) → (n == n) ≡ true
==_refl n = (==_iff n n).1 refl

is_number-quoted : (n : ℕ) → is_number n (quoted n) ≡ true
is_number-quoted n =
    let (c, s, e, digits, whole) = to_string-digits n in
    let read : parse_int (c ∷ s) ≡ some (pos n) = ap parse_int (sym e) ∙ parse_int-to_string n in
    rw (without_last-append (to_string n), is_number) (rw e (rw read (==_refl n)))

pub validate-path_text :
    (a c d : ℕ) → validate_slip0010_path (path_text (pos a) (pos c) (pos d)) ≡ true
unfolding validate_slip0010_path starts_with
validate-path_text a c d = rw (split_slashes-path_text a c d) (
    rw (all-quoted (44 ∷ kalvora_type ∷ a ∷ c ∷ d ∷ []))
      (rw (is_number-quoted 44, is_number-quoted kalvora_type) refl))
