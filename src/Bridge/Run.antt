-- ===== src/Bridge/Run.antt =====
-- src/smart-contracts/use-cases/bridge/guardian/vaa.ts: code that awaits calls of other components,
-- as a function of the calls made so far. The answer to a call is a parameter, and may depend on all
-- calls before it.
use kalvora_js.Common.{◌≡◌, ◌⊎◌, inl, inr, refl, List, ◌∷◌, Result, ok, err}

-- What is thrown: by a call, or by the code itself.
pub data Thrown (E F : Type 0) : Type 0 where
  by_call : E → Thrown E F
  by_code : F → Thrown E F

-- The calls, the latest first, and what the code returns or throws.
abbrev pub Run : Type 0 → Type 0 → Type 0 → Type 0
Run Call E A = List Call → List Call × Result E A

abbrev pub Answers : (Call : Type 0) → (Call → Type 0) → Type 0 → Type 0
Answers Call Reply E = (c : Call) → List Call → Result E (Reply c)

module _ {Call E : Type 0} where
  abbrev pub return : {A : Type 0} → A → Run Call E A
  return a calls = (calls, ok a)

  abbrev pub throw : {A : Type 0} → E → Run Call E A
  throw e calls = (calls, err e)

  abbrev continue :
      {A B : Type 0} → (A → Run Call E B) → List Call × Result E A → List Call × Result E B
  continue f (calls, ok a) = f a calls
  continue f (calls, err e) = (calls, err e)

  infixl 5 ◌>>=◌
  abbrev pub ◌>>=◌ : {A B : Type 0} → Run Call E A → (A → Run Call E B) → Run Call E B
  (m >>= f) calls = continue f (m calls)

abbrev answered : {A E F : Type 0} → Result E A → Result (Thrown E F) A
answered (ok a) = ok a
answered (err e) = err (by_call e)

abbrev pub call :
    {Call E F : Type 0} {Reply : Call → Type 0}
    → Answers Call Reply E
    → (c : Call) → Run Call (Thrown E F) (Reply c)
call answer c calls = (c ∷ calls, answered (answer c calls))

-- A sequence that returns has had both of its parts return.
pub bind-ok :
    {Call E A B : Type 0} (m : Run Call E A) (f : A → Run Call E B) (calls after : List Call)
    (b : B)
    → (m >>= f) calls ≡ (after, ok b)
    → (a : A) × (mid : List Call) × (m calls ≡ (mid, ok a)) × (f a mid ≡ (after, ok b))
bind-ok {Call = Call} {E = E} {A = A} {B = B} m f calls after b h = go (m calls) refl h
  where
    go :
        (r : List Call × Result E A)
        → m calls ≡ r
        → continue f r ≡ (after, ok b)
        → (a : A) × (mid : List Call) × (m calls ≡ (mid, ok a)) × (f a mid ≡ (after, ok b))
    go (mid, ok a) e h = (a, mid, e, h)
    go (mid, err t) e h = cc h

-- One that throws has thrown in its first part or, the first having returned, in its second.
pub bind-err :
    {Call E A B : Type 0} (m : Run Call E A) (f : A → Run Call E B) (calls after : List Call)
    (t : E)
    → (m >>= f) calls ≡ (after, err t)
    → (m calls ≡ (after, err t))
      ⊎ ((a : A) × (mid : List Call) × (m calls ≡ (mid, ok a)) × (f a mid ≡ (after, err t)))
bind-err {Call = Call} {E = E} {A = A} {B = B} m f calls after t h = go (m calls) refl h
  where
    go :
        (r : List Call × Result E A)
        → m calls ≡ r
        → continue f r ≡ (after, err t)
        → (m calls ≡ (after, err t))
          ⊎ ((a : A) × (mid : List Call) × (m calls ≡ (mid, ok a)) × (f a mid ≡ (after, err t)))
    go (mid, ok a) e h = inr (a, mid, e, h)
    go (mid, err s) e h = inl (cc (e, h))

pub call-ok :
    {Call E F : Type 0} {Reply : Call → Type 0} (answer : Answers Call Reply E) (c : Call)
    (calls after : List Call) (a : Reply c)
    → call {F = F} answer c calls ≡ (after, ok a)
    → (answer c calls ≡ ok a) × (after ≡ c ∷ calls)
call-ok {Call = Call} {E = E} {F = F} {Reply = Reply} answer c calls after a h =
    go (answer c calls) refl h
  where
    go :
        (r : Result E (Reply c))
        → answer c calls ≡ r
        → Path (List Call × Result (Thrown E F) (Reply c)) (c ∷ calls, answered r) (after, ok a)
        → (answer c calls ≡ ok a) × (after ≡ c ∷ calls)
    go (ok b) e h = (cc (e, h), cc h)
    go (err b) e h = cc h

-- The call that failed is the last one made.
pub call-err :
    {Call E F : Type 0} {Reply : Call → Type 0} (answer : Answers Call Reply E) (c : Call)
    (calls after : List Call) (t : Thrown E F)
    → Path (List Call × Result (Thrown E F) (Reply c)) (call answer c calls) (after, err t)
    → (e : E) × (t ≡ by_call e) × (answer c calls ≡ err e) × (after ≡ c ∷ calls)
call-err {Call = Call} {E = E} {F = F} {Reply = Reply} answer c calls after t h =
    go (answer c calls) refl h
  where
    go :
        (r : Result E (Reply c))
        → answer c calls ≡ r
        → Path (List Call × Result (Thrown E F) (Reply c)) (c ∷ calls, answered r) (after, err t)
        → (e : E) × (t ≡ by_call e) × (answer c calls ≡ err e) × (after ≡ c ∷ calls)
    go (ok b) e h = cc h
    go (err b) e h = (b, cc h, e, cc h)
