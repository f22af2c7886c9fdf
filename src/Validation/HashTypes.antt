-- ===== src/Validation/HashTypes.antt =====
-- src/shared/utils/validation.ts: `validateHashTypes`.
use mathlib.Core.Path.{ap₂, subst}
use kalvora_js.Common.{
  ℕ, ◌+◌, ◌≡◌, ◌≢◌, ◌⊎◌, inl, inr, refl, ap, true, not, Option, none, some, List, [], ◌∷◌, map,
  arith, Result, ok, err, ◌>>=◌, if◌then◌else◌, all, Text, codes, Bool-cases, Option-cases,
}
use kalvora_js.Js.Value.{
  Value, Values, nil, cons, undefined, null, boolean, number, bigint, string, array, decimal,
  object, truthy,
}
use kalvora_js.Validation.{
  ValidationError, hash_types_required, hash_types_not_array, hash_types_empty,
  hash_type_not_string, invalid_hash_type, ValidationOptions, Outcome, fail, accept, as_string,
  is_one_of,
}
use kalvora_js.Validation.Texts.{Decides}

abbrev hash_types : List Text
hash_types = codes "sha3_256" ∷ codes "sha3_512" ∷ codes "blake3" ∷ []

abbrev as_array : {D : Type 0} → Value D → Option (Values D)
as_array (array vs) = some vs
as_array _ = none

-- The loop, from an index: the hash types in lower case, or the first error.
unfoldable pub hash_types_loop :
    {D : Type 0} → (Text → Text) → ℕ → Values D → Result ValidationError (List Text)
hash_types_loop lower index nil = ok []
hash_types_loop lower index (cons v vs) =
    let others = hash_types_loop lower (index + 1) vs in
    elim (as_string v) [
      | none ↦ err (hash_type_not_string index)
      | some s ↦
          if not (is_one_of hash_types (lower s))
          then err (invalid_hash_type index)
          else others >>= λ rest. ok (lower s ∷ rest)
    ]

abbrev check_hash_types :
    {D X : Type 0} → ValidationOptions X → (Text → Text) → Values D → Outcome X (List Text)
check_hash_types options lower nil = fail options hash_types_empty
check_hash_types options lower (cons v vs) = elim (hash_types_loop lower 0 (cons v vs)) [
  | err e ↦ fail options e
  | ok texts ↦ accept options texts
]

unfoldable pub validate_hash_types :
    {D X : Type 0} → ValidationOptions X → (Text → Text) → Value D → Outcome X (List Text)
validate_hash_types options lower value =
    if not (truthy value) then fail options hash_types_required else elim (as_array value) [
      | none ↦ fail options hash_types_not_array
      | some vs ↦ check_hash_types options lower vs
    ]

abbrev pub strings : {D : Type 0} → List Text → Values D
strings [] = nil
strings (s ∷ ss) = cons (string s) (strings ss)

abbrev pub Known : (Text → Text) → List Text → Type 0
Known lower texts = all (λ s. is_one_of hash_types (lower s)) texts ≡ true

-- The array holds texts that are hash types in lower case, which are the result.
abbrev pub AreHashTypes : {D : Type 0} → (Text → Text) → Values D → List Text → Type 0
AreHashTypes lower vs result =
    (texts : List Text) × (vs ≡ strings texts) × Known lower texts × (result ≡ map lower texts)

LoopDecides : {D : Type 0} → (Text → Text) → Values D → Result ValidationError (List Text) → Type 0
LoopDecides lower vs outcome =
    ((result : List Text) × AreHashTypes lower vs result × (outcome ≡ ok result))
    ⊎ ((e : ValidationError) × ((result : List Text) → AreHashTypes lower vs result → ⊥)
        × (outcome ≡ err e))

abbrev head_of : {D : Type 0} → Values D → Option (Value D)
head_of nil = none
head_of (cons v vs) = some v

abbrev tail_of : {D : Type 0} → Values D → Values D
tail_of nil = nil
tail_of (cons v vs) = vs

-- The array starts with a known text, and the others are hash types too.
cons_inversion :
    {D : Type 0} (lower : Text → Text) (v : Value D) (vs : Values D) (result : List Text)
    → AreHashTypes lower (cons v vs) result
    → (s : Text) × (v ≡ string s)
      × (is_one_of hash_types (lower s) ≡ true)
      × ((rest : List Text) × AreHashTypes lower vs rest)
cons_inversion lower v vs result ([], is, known, made) = absurd (cc (ap head_of is))
cons_inversion lower v vs result (s ∷ ss, is, known, made) =
    (s, cc (ap head_of is), ground arith, (map lower ss, (ss, ap tail_of is, ground arith, refl)))

as_string-string : {D : Type 0} (v : Value D) (s : Text) → as_string v ≡ some s → v ≡ string s
as_string-string (string t) s e = ap string (cc e)
as_string-string undefined s e = cc e
as_string-string null s e = cc e
as_string-string (boolean b) s e = cc e
as_string-string (number t) s e = cc e
as_string-string (bigint n) s e = cc e
as_string-string (array vs) s e = cc e
as_string-string (decimal d) s e = cc e
as_string-string object s e = cc e

hash_types_loop-LoopDecides :
    {D : Type 0} (lower : Text → Text) (index : ℕ) (vs : Values D)
    → LoopDecides lower vs (hash_types_loop lower index vs)
unfolding hash_types_loop LoopDecides
hash_types_loop-LoopDecides lower index nil = inl ([], ([], refl, refl, refl), refl)
hash_types_loop-LoopDecides lower index (cons v vs) = elim (Option-cases (as_string v)) [
  | inl none_ ↦ inr (
    hash_type_not_string index,
    (λ result h.
        let (s, is, _, _) = cons_inversion lower v vs result h in cc (none_, ap as_string is)),
    rw (none_, hash_types_loop) refl,
  )
  | inr (s, text) ↦ elim (Bool-cases (is_one_of hash_types (lower s))) [
    | inr unknown ↦ inr (
      invalid_hash_type index,
      (λ result h.
          let (t, is, known, _) = cons_inversion lower v vs result h in
          let same : s ≡ t = cc (text, ap as_string is) in
          cc (unknown, ap (λ x. is_one_of hash_types (lower x)) same, known)),
      rw (text, hash_types_loop, unknown) refl,
    )
    | inl known ↦ elim (hash_types_loop-LoopDecides lower (index + 1) vs) [
      | inl (rest, (texts, is, all_known, made), done) ↦ inl (
        lower s ∷ rest,
        (
          s ∷ texts,
          ap₂ cons (as_string-string v s text) is,
          rw known all_known,
          ap (λ r. lower s ∷ r) made,
        ),
        rw (text, hash_types_loop, known, done) refl,
      )
      | inr (e, bad, failed) ↦ inr (
        e,
        (λ result h.
            let (_, _, _, (rest, others)) = cons_inversion lower v vs result h in bad rest others),
        rw (text, hash_types_loop, known, failed) refl,
      )
    ]
  ]
]

checked :
    {D X : Type 0} (options : ValidationOptions X) (lower : Text → Text) (vs : Values D)
    → Decides options
        (check_hash_types options lower vs)
        (λ result. (vs ≢ nil) × AreHashTypes lower vs result)
unfolding LoopDecides
checked options lower nil = inr (hash_types_empty, (λ result (nonempty, _). nonempty refl), refl)
checked options lower (cons v vs) = elim (hash_types_loop-LoopDecides lower 0 (cons v vs)) [
  | inl (result, good, done) ↦
      inl (result, ((λ e. cc (ap head_of e)), good), rw (done, check_hash_types) refl)
  | inr (e, bad, failed) ↦
      inr (e, (λ result (_, good). bad result good), rw (failed, check_hash_types) refl)
]

not_array :
    {D X : Type 0} (options : ValidationOptions X) (lower : Text → Text) (value : Value D)
    → as_array value ≡ none
    → Decides options (validate_hash_types options lower value) (λ result.
      (vs : Values D) × (value ≡ array vs) × ((vs ≢ nil) × AreHashTypes lower vs result))
unfolding validate_hash_types
not_array options lower value e = elim (Bool-cases (truthy value)) [
  | inl given ↦
      inr (hash_types_not_array, (λ v (vs, is, _). cc (e, ap as_array is)), rw (given, e) refl)
  | inr missing ↦
      inr (hash_types_required, (λ v (vs, is, _). cc (e, ap as_array is)), rw missing refl)
]

-- Hash types are accepted exactly if they are an array, not empty, of texts that in lower case are
-- `sha3_256`, `sha3_512` or `blake3`; the texts in lower case are returned, in order.
validate_hash_types-Decides :
    {D X : Type 0} (options : ValidationOptions X) (lower : Text → Text) (value : Value D)
    → Decides options (validate_hash_types options lower value) (λ result.
      (vs : Values D) × (value ≡ array vs) × ((vs ≢ nil) × AreHashTypes lower vs result))
unfolding validate_hash_types truthy
validate_hash_types-Decides options lower (array vs) = elim (checked options lower vs) [
  | inl (result, good, accepted) ↦ inl (result, (vs, refl, good), accepted)
  | inr (e, bad, failed) ↦ inr (
    e,
    (λ result (ws, is, (nonempty, good)).
        bad result
          (subst (λ us. (us ≢ nil) × AreHashTypes lower us result) (cc is) (nonempty, good))),
    failed,
  )
]
validate_hash_types-Decides options lower (string s) = not_array options lower (string s) refl
validate_hash_types-Decides options lower undefined = not_array options lower undefined refl
validate_hash_types-Decides options lower null = not_array options lower null refl
validate_hash_types-Decides options lower (boolean b) = not_array options lower (boolean b) refl
validate_hash_types-Decides options lower (number t) = not_array options lower (number t) refl
validate_hash_types-Decides options lower (bigint n) = not_array options lower (bigint n) refl
validate_hash_types-Decides options lower (decimal d) = not_array options lower (decimal d) refl
validate_hash_types-Decides options lower object = not_array options lower object refl
