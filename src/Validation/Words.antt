-- ===== src/Validation/Words.antt =====
-- src/shared/utils/validation.ts: the words that `validateMnemonic` counts.
use mathlib.Core.Path.{subst}
use mathlib.Core.List.{append-nil}
use kalvora_js.Common.{
  ℕ, suc, ◌≡◌, ◌≢◌, ◌↔◌, refl, sym, ap, ◌∙◌, true, false, List, [], ◌∷◌, ◌++◌, ◌==◌, length, any,
  All, Text,
}
use kalvora_js.Js.{is_space, trim}
use kalvora_js.Validation.{
  ValidationOptions, accept, starts_with_space, add_first, split_spaces, valid_lengths,
  validate_mnemonic,
}
use kalvora_js.Validation.Texts.{
  text_value, OfText, accepted-Good, Good-accepted, validate_mnemonic-Decides,
}

-- A word has a character, and no white space.
abbrev pub IsWord : Text → Type 0
IsWord w = (w ≢ []) × All (λ c. is_space c ≡ false) w

-- A separator has a character, and nothing but white space.
abbrev pub IsSeparator : Text → Type 0
IsSeparator s = (s ≢ []) × All (λ c. is_space c ≡ true) s

-- A word, then further words, each behind its separator.
unfoldable pub joined : Text → List (Text × Text) → Text
joined w [] = w
joined w ((separator, v) ∷ others) = w ++ (separator ++ joined v others)

abbrev pub IsPhrase : Text → List (Text × Text) → Type 0
IsPhrase w [] = IsWord w
IsPhrase w ((separator, v) ∷ others) = IsWord w × IsSeparator separator × IsPhrase v others

abbrev add_all : Text → List Text → List Text
add_all [] words = words
add_all (c ∷ w) words = add_first c (add_all w words)

add_all-nil : (w : Text) (words : List Text) → add_all w ([] ∷ words) ≡ w ∷ words
add_all-nil [] words = refl
add_all-nil (c ∷ w) words = ap (add_first c) (add_all-nil w words)

split_word :
    (w t : Text)
    → All (λ c. is_space c ≡ false) w
    → split_spaces (w ++ t) ≡ add_all w (split_spaces t)
unfolding split_spaces
split_word [] t h = refl
split_word (c ∷ w) t (p, h) = rw p (ap (add_first c) (split_word w t h))

split_separator :
    (s t : Text)
    → s ≢ []
    → All (λ c. is_space c ≡ true) s
    → starts_with_space t ≡ false
    → split_spaces (s ++ t) ≡ [] ∷ split_spaces t
unfolding split_spaces
split_separator [] t nonempty h stop = absurd (nonempty refl)
split_separator (c ∷ []) t nonempty (p, _) stop = rw (p, stop) refl
split_separator (c ∷ d ∷ s) t nonempty (p, (q, h)) stop =
    let rest = split_separator (d ∷ s) t (λ e. cc e) (q, h) stop in
    rw (p, q, split_spaces) (rw (q, split_spaces) at rest)

joined-starts :
    (w : Text) (others : List (Text × Text))
    → IsPhrase w others
    → starts_with_space (joined w others) ≡ false
unfolding joined
joined-starts [] [] (nonempty, _) = absurd (nonempty refl)
joined-starts (c ∷ w) [] (_, (p, _)) = p
joined-starts [] ((s, v) ∷ others) ((nonempty, _), _, _) = absurd (nonempty refl)
joined-starts (c ∷ w) ((s, v) ∷ others) ((_, (p, _)), _, _) = p

words_of : Text → List (Text × Text) → List Text
words_of w [] = w ∷ []
words_of w ((s, v) ∷ others) = w ∷ words_of v others

length-words_of :
    (w : Text) (others : List (Text × Text)) → length (words_of w others) ≡ suc (length others)
unfolding words_of
length-words_of w [] = refl
length-words_of w ((s, v) ∷ others) = ap suc (length-words_of v others)

split_spaces-joined :
    (w : Text) (others : List (Text × Text))
    → IsPhrase w others
    → split_spaces (joined w others) ≡ words_of w others
unfolding joined words_of split_spaces
split_spaces-joined w [] (_, h) =
    ap split_spaces (sym (append-nil w)) ∙ split_word w [] h ∙ add_all-nil w []
split_spaces-joined w ((s, v) ∷ others) ((_, h), (nonempty, spaces), phrase) =
    split_word w (s ++ joined v others) h
    ∙ ap (add_all w)
        (split_separator s (joined v others) nonempty spaces (joined-starts v others phrase))
    ∙ add_all-nil w (split_spaces (joined v others))
    ∙ ap (λ ws. w ∷ ws) (split_spaces-joined v others phrase)

-- A mnemonic that, stripped, is words with white space between them is accepted, and returned
-- stripped, exactly if there are 12, 15, 18, 21 or 24 words, however wide the white space is.
validate_mnemonic-words :
    {X : Type 0} (D : Type 0) (options : ValidationOptions X) (s w : Text)
    (others : List (Text × Text))
    → s ≢ []
    → IsPhrase w others
    → trim s ≡ joined w others
    → (validate_mnemonic options (text_value D s) ≡ accept options (trim s))
      ↔ (any (λ n. n == suc (length others)) valid_lengths ≡ true)
validate_mnemonic-words D options s w others nonempty phrase stripped = (to, from)
  where
    Good : Text → Type 0
    Good = OfText (text_value D s) (λ t v.
        (v ≡ trim t) × (any (λ n. n == length (split_spaces (trim t))) valid_lengths ≡ true))

    counted : length (split_spaces (trim s)) ≡ suc (length others)
    counted =
        ap (λ t. length (split_spaces t)) stripped
        ∙ ap length (split_spaces-joined w others phrase)
        ∙ length-words_of w others

    allowed : ℕ → Type 0
    allowed m = any (λ n. n == m) valid_lengths ≡ true

    unique : (v : Text) → Good v → v ≡ trim s
    unique v (t, is, _, (same, _)) = same ∙ ap trim (cc is)

    to :
        validate_mnemonic options (text_value D s) ≡ accept options (trim s)
        → any (λ n. n == suc (length others)) valid_lengths ≡ true
    to h =
        let (t, is, _, (_, good)) =
          accepted-Good options _ Good (trim s) (validate_mnemonic-Decides options (text_value D s))
            h in
        let same : t ≡ s = cc is in
        subst allowed counted (subst (λ u. allowed (length (split_spaces (trim u)))) same good)

    from :
        any (λ n. n == suc (length others)) valid_lengths ≡ true
        → validate_mnemonic options (text_value D s) ≡ accept options (trim s)
    from h =
        Good-accepted options _ Good (trim s) (validate_mnemonic-Decides options (text_value D s))
          unique (s, refl, nonempty, (refl, subst allowed (sym counted) h))
