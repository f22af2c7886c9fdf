-- ===== src/MintId/Bridged.antt =====
-- src/shared/network/constants.ts: the texts that the pattern of bridged identifiers matches.
use mathlib.Core.Path.{subst}
use kalvora_js.Common.{
  ◌≡◌, ◌↔◌, ◌⊎◌, inl, inr, refl, sym, ap, ◌∙◌, true, false, [], ◌∷◌, ◌++◌, arith, all, Text,
  Bool-cases,
}
use kalvora_js.MintId.{
  is_alnum, take_alnum, drop_alnum, is_run, version_part, symbol_part, dash_part, is_bridged,
}

-- A text of letters and digits, at least one.
abbrev pub IsRun : Text → Type 0
IsRun s = is_run s ≡ true

-- Nothing, or a plus sign and a version.
abbrev pub IsVersion : Text → Type 0
IsVersion tail = (tail ≡ []) ⊎ ((version : Text) × (tail ≡ b'+' ∷ version) × IsRun version)

-- `$chain-SYMBOL` or `$chain-SYMBOL+VERSION`
abbrev pub IsBridged : Text → Type 0
IsBridged value =
    (chain symbol tail : Text) × (value ≡ b'$' ∷ (chain ++ (b'-' ∷ (symbol ++ tail))))
    × IsRun chain
    × IsRun symbol
    × IsVersion tail

take-append-drop_alnum : (s : Text) → s ≡ take_alnum s ++ drop_alnum s
unfolding take_alnum drop_alnum
take-append-drop_alnum [] = refl
take-append-drop_alnum (c ∷ s) = elim (Bool-cases (is_alnum c)) [
  | inl yes_ ↦ rw yes_ (ap (λ t. c ∷ t) (take-append-drop_alnum s))
  | inr no_ ↦ rw no_ refl
]

-- A run before a separator is taken whole.
abbrev Stops : Text → Type 0
Stops [] = Unit
Stops (c ∷ s) = is_alnum c ≡ false

split_at_stop :
    (run rest : Text)
    → all is_alnum run ≡ true
    → Stops rest
    → (take_alnum (run ++ rest) ≡ run) × (drop_alnum (run ++ rest) ≡ rest)
unfolding take_alnum drop_alnum
split_at_stop [] [] h stop = (refl, refl)
split_at_stop [] (c ∷ rest) h stop = rw stop (refl, refl)
split_at_stop (c ∷ run) rest h stop =
    let first : is_alnum c ≡ true = ground arith in
    let others : all is_alnum run ≡ true = ground arith in
    let (t, d) = split_at_stop run rest others stop in rw first (ap (λ x. c ∷ x) t, d)

run-all : (s : Text) → IsRun s → all is_alnum s ≡ true
run-all (c ∷ s) h = h
run-all [] h = cc h

version_part_iff : (tail : Text) → (version_part tail ≡ true) ↔ IsVersion tail
version_part_iff [] = (λ _. inl refl, λ _. refl)
version_part_iff (c ∷ s) = (to, from)
  where
    to : version_part (c ∷ s) ≡ true → IsVersion (c ∷ s)
    to h = inr (s, ap (λ x. x ∷ s) (ground arith), ground arith)

    from : IsVersion (c ∷ s) → version_part (c ∷ s) ≡ true
    from (inl e) = cc e
    from (inr (version, e, run)) = subst (λ t. version_part t ≡ true) (sym e) run

version-Stops : (tail : Text) → IsVersion tail → Stops tail
unfolding is_alnum
version-Stops tail (inl e) = subst Stops (sym e) tt
version-Stops tail (inr (version, e, run)) = subst Stops (sym e) refl

symbol_iff :
    (s : Text)
    → (symbol_part s ≡ true)
      ↔ ((symbol tail : Text) × (s ≡ symbol ++ tail) × IsRun symbol × IsVersion tail)
unfolding symbol_part
symbol_iff s = (to, from)
  where
    to :
        symbol_part s ≡ true
        → (symbol tail : Text) × (s ≡ symbol ++ tail) × IsRun symbol × IsVersion tail
    to h = (
      take_alnum s,
      drop_alnum s,
      take-append-drop_alnum s,
      ground arith,
      (version_part_iff (drop_alnum s)).0 (ground arith),
    )

    from :
        (symbol tail : Text) × (s ≡ symbol ++ tail) × IsRun symbol × IsVersion tail
        → symbol_part s ≡ true
    from (symbol, tail, e, run, version) =
        let (t, d) = split_at_stop symbol tail (run-all symbol run) (version-Stops tail version) in
        rw (e, t, d, run) ((version_part_iff tail).1 version)

dash-Stops : is_alnum b'-' ≡ false
unfolding is_alnum
dash-Stops = refl

-- The pattern of bridged identifiers matches exactly `$chain-SYMBOL` and `$chain-SYMBOL+VERSION`, the
-- parts of letters and digits and none of them empty.
pub is_bridged_iff : (value : Text) → (is_bridged value ≡ true) ↔ IsBridged value
unfolding is_bridged
is_bridged_iff value = (to value, from)
  where
    dashed : (t : Text) → dash_part t ≡ true → (s : Text) × (t ≡ b'-' ∷ s) × (symbol_part s ≡ true)
    dashed [] h = cc h
    dashed (c ∷ s) h = (s, ap (λ x. x ∷ s) (ground arith), ground arith)

    to : (value : Text) → is_bridged value ≡ true → IsBridged value
    to [] h = cc h
    to (c ∷ s) h =
        let chain = take_alnum s in
        let (t, e, symbols) = dashed (drop_alnum s) (ground arith) in
        let (symbol, tail, e', run, version) = (symbol_iff t).0 symbols in
        (
          chain,
          symbol,
          tail,
          ap (λ x. x ∷ s) (ground arith)
              ∙ ap (λ x. b'$' ∷ x)
                  (take-append-drop_alnum s ∙ ap (λ x. chain ++ x) (e ∙ ap (λ x. b'-' ∷ x) e')),
          ground arith,
          run,
          version,
        )

    from : IsBridged value → is_bridged value ≡ true
    from (chain, symbol, tail, e, chain_run, run, version) =
        let (t, d) =
          split_at_stop chain (b'-' ∷ (symbol ++ tail)) (run-all chain chain_run) dash-Stops in
        subst (λ v. is_bridged v ≡ true) (sym e)
          (rw (t, d, chain_run)
            ((symbol_iff (symbol ++ tail)).1 (symbol, tail, refl, run, version)))
