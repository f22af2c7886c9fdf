-- ===== src/ContractId/Fields.antt =====
-- src/protocol/contract-id.ts: the optional fields and the release schedule of contract data are
-- prefix codes.
use mathlib.Core.List.{flatten, append_assoc, append-nil}
use mathlib.Core.Option
use kalvora_js.Common.{
  ℕ, ◌<◌, ◌≡◌, refl, sym, ap, ◌∙◌, true, none, some, List, [], ◌∷◌, ◌++◌, map, arith, Result, ok,
  length, Text, All, all,
}
use kalvora_js.Common.Int.{ℤ, pos}
use kalvora_js.Js.Utf8.{utf8, utf8_ascii}
use kalvora_js.Bytes.{Bytes}
use kalvora_js.ContractId.{
  IdError, Parts, Denomination, Release, u8, u32, u64, prefixed_string, is_digit, strip_zeros,
  canonical_decimal, supply_parts, denomination_parts, release_parts, entries_parts, schedule_parts,
}
use kalvora_js.ContractId.Codes.{
  >>=-eq-ok, u8-IsCode, u32-IsCode, u64-IsCode, prefixed_string-IsCode,
}

abbrev IsAscii : ℕ → Type 0
IsAscii c = c < 0x80

digits-IsAscii : (s : Text) → all is_digit s ≡ true → All IsAscii s
digits-IsAscii [] h = tt
digits-IsAscii (c ∷ s) h = (ground arith, digits-IsAscii s (ground arith))

strip_zeros-IsAscii : (s : Text) → All IsAscii s → All IsAscii (strip_zeros s)
unfolding strip_zeros
strip_zeros-IsAscii [] h = tt
strip_zeros-IsAscii (c ∷ s) h = ground (arith, strip_zeros-IsAscii s)

canonical_decimal-IsAscii : (v d : Text) → canonical_decimal v ≡ ok d → All IsAscii d
unfolding canonical_decimal
canonical_decimal-IsAscii v d h = ground (arith, digits-IsAscii v, strip_zeros-IsAscii v)

decimal-code :
    (x y dx dy : Text) (a b r s : Bytes)
    → canonical_decimal x ≡ ok dx
    → canonical_decimal y ≡ ok dy
    → prefixed_string dx ≡ ok a
    → prefixed_string dy ≡ ok b
    → a ++ r ≡ b ++ s
    → (canonical_decimal x ≡ canonical_decimal y) × (r ≡ s)
decimal-code x y dx dy a b r s hx hy ha hb e =
    let (same, rest) = prefixed_string-IsCode dx dy a b r s ha hb e in
    let digits : dx ≡ dy =
      sym (utf8_ascii dx (canonical_decimal-IsAscii x dx hx))
      ∙ same
      ∙ utf8_ascii dy (canonical_decimal-IsAscii y dy hy) in
    (hx ∙ ap ok digits ∙ sym hy, rest)

abbrev pub IsPartsCode : {A V : Type 0} → (A → Parts) → (A → V) → Type 0
IsPartsCode {A} encode view =
    (x y : A) (a b : List Bytes) (r s : Bytes)
    → encode x ≡ ok a
    → encode y ≡ ok b
    → flatten a ++ r ≡ flatten b ++ s
    → (view x ≡ view y) × (r ≡ s)

flatten_one : (a r : Bytes) → flatten (a ∷ []) ++ r ≡ a ++ r
unfolding flatten
flatten_one a r = simp (append_assoc, append-nil)

flatten_two : (a b r : Bytes) → flatten (a ∷ b ∷ []) ++ r ≡ a ++ (b ++ r)
unfolding flatten
flatten_two a b r = simp (append_assoc, append-nil)

pub flatten_three : (a b c r : Bytes) → flatten (a ∷ b ∷ c ∷ []) ++ r ≡ a ++ (b ++ (c ++ r))
unfolding flatten
flatten_three a b c r = simp (append_assoc, append-nil)

flatten_four : (a b c d r : Bytes) → flatten (a ∷ b ∷ c ∷ d ∷ []) ++ r ≡ a ++ (b ++ (c ++ (d ++ r)))
unfolding flatten
flatten_four a b c d r = simp (append_assoc, append-nil)

pub flatten-append :
    (xs ys : List Bytes) (r : Bytes) → flatten (xs ++ ys) ++ r ≡ flatten xs ++ (flatten ys ++ r)
unfolding flatten
flatten-append [] ys r = refl
flatten-append (x ∷ xs) ys r =
    append_assoc x (flatten (xs ++ ys)) r
    ∙ ap (λ t. x ++ t) (flatten-append xs ys r)
    ∙ sym (append_assoc x (flatten xs) (flatten ys ++ r))

-- The three outcomes of a supply encoding: the flag, the digits and their bytes.
supply_ok :
    (v : Text) (a : List Bytes)
    → supply_parts (some v) ≡ ok a
    → (flag : Bytes) × (digits : Text) × (amount : Bytes) × (u8 (pos 1) ≡ ok flag)
      × (canonical_decimal v ≡ ok digits)
      × (prefixed_string digits ≡ ok amount)
      × (a ≡ flag ∷ amount ∷ [])
unfolding supply_parts
supply_ok v a h =
    let (flag, hf, h1) = >>=-eq-ok (u8 (pos 1)) _ h in
    let (digits, hd, h2) = >>=-eq-ok (canonical_decimal v) _ h1 in
    let (amount, hm, h3) = >>=-eq-ok (prefixed_string digits) _ h2 in
    (flag, digits, amount, hf, hd, hm, cc h3)

none_ok :
    (a : List Bytes)
    → supply_parts none ≡ ok a
    → (flag : Bytes) × (u8 (pos 0) ≡ ok flag) × (a ≡ flag ∷ [])
unfolding supply_parts
none_ok a h = let (flag, hf, h1) = >>=-eq-ok (u8 (pos 0)) _ h in (flag, hf, cc h1)

-- A field that is there does not start like one that is not.
flags-ne :
    {P : Type 0} (f g r s : Bytes) → u8 (pos 1) ≡ ok f → u8 (pos 0) ≡ ok g → f ++ r ≡ g ++ s → P
flags-ne f g r s hf hg e = cc (u8-IsCode (pos 1) (pos 0) f g r s hf hg e).0

pub reflow :
    {a b l k : List Bytes} (r s : Bytes) {u v : Bytes}
    → a ≡ l
    → b ≡ k
    → flatten l ++ r ≡ u
    → flatten k ++ s ≡ v
    → flatten a ++ r ≡ flatten b ++ s
    → u ≡ v
reflow r s ea eb hu hv e =
    sym hu ∙ sym (ap (λ t. flatten t ++ r) ea) ∙ e ∙ ap (λ t. flatten t ++ s) eb ∙ hv

pub supply-IsCode : IsPartsCode supply_parts (Option.map canonical_decimal)
supply-IsCode none none a b r s ha hb e =
    let (f, hf, ea) = none_ok a ha in
    let (g, hg, eb) = none_ok b hb in
    (refl, (u8-IsCode _ _ f g r s hf hg (reflow r s ea eb (flatten_one f r) (flatten_one g s) e)).1)
supply-IsCode none (some y) a b r s ha hb e =
    let (f, hf, ea) = none_ok a ha in
    let (g, d, m, hg, hd, hm, eb) = supply_ok y b hb in
    flags-ne g f _ _ hg hf (sym (reflow r s ea eb (flatten_one f r) (flatten_two g m s) e))
supply-IsCode (some x) none a b r s ha hb e =
    let (f, d, m, hf, hd, hm, ea) = supply_ok x a ha in
    let (g, hg, eb) = none_ok b hb in
    flags-ne f g _ _ hf hg (reflow r s ea eb (flatten_two f m r) (flatten_one g s) e)
supply-IsCode (some x) (some y) a b r s ha hb e =
    let (f, d, m, hf, hd, hm, ea) = supply_ok x a ha in
    let (g, d', m', hg, hd', hm', eb) = supply_ok y b hb in
    let (_, rest) =
      u8-IsCode _ _ f g _ _ hf hg (reflow r s ea eb (flatten_two f m r) (flatten_two g m' s) e) in
    let (same, rest') = decimal-code x y d d' m m' r s hd hd' hm hm' rest in (ap some same, rest')

unfoldable pub denomination_view : Denomination → Bytes × Result IdError Text
denomination_view d = (utf8 d.denomination_name, canonical_decimal d.amount)

denomination_ok :
    (v : Denomination) (a : List Bytes)
    → denomination_parts (some v) ≡ ok a
    → (flag name : Bytes) × (digits : Text) × (amount : Bytes) × (u8 (pos 1) ≡ ok flag)
      × (prefixed_string v.denomination_name ≡ ok name)
      × (canonical_decimal v.amount ≡ ok digits)
      × (prefixed_string digits ≡ ok amount)
      × (a ≡ flag ∷ name ∷ amount ∷ [])
unfolding denomination_parts
denomination_ok v a h =
    let (flag, hf, h1) = >>=-eq-ok (u8 (pos 1)) _ h in
    let (name, hn, h2) = >>=-eq-ok (prefixed_string v.denomination_name) _ h1 in
    let (digits, hd, h3) = >>=-eq-ok (canonical_decimal v.amount) _ h2 in
    let (amount, hm, h4) = >>=-eq-ok (prefixed_string digits) _ h3 in
    (flag, name, digits, amount, hf, hn, hd, hm, cc h4)

no_denomination_ok :
    (a : List Bytes)
    → denomination_parts none ≡ ok a
    → (flag : Bytes) × (u8 (pos 0) ≡ ok flag) × (a ≡ flag ∷ [])
unfolding denomination_parts
no_denomination_ok a h = let (flag, hf, h1) = >>=-eq-ok (u8 (pos 0)) _ h in (flag, hf, cc h1)

pub denomination-IsCode : IsPartsCode denomination_parts (Option.map denomination_view)
unfolding denomination_view
denomination-IsCode none none a b r s ha hb e =
    let (f, hf, ea) = no_denomination_ok a ha in
    let (g, hg, eb) = no_denomination_ok b hb in
    (refl, (u8-IsCode _ _ f g r s hf hg (reflow r s ea eb (flatten_one f r) (flatten_one g s) e)).1)
denomination-IsCode none (some y) a b r s ha hb e =
    let (f, hf, ea) = no_denomination_ok a ha in
    let (g, n, d, m, hg, hn, hd, hm, eb) = denomination_ok y b hb in
    flags-ne g f _ _ hg hf (sym (reflow r s ea eb (flatten_one f r) (flatten_three g n m s) e))
denomination-IsCode (some x) none a b r s ha hb e =
    let (f, n, d, m, hf, hn, hd, hm, ea) = denomination_ok x a ha in
    let (g, hg, eb) = no_denomination_ok b hb in
    flags-ne f g _ _ hf hg (reflow r s ea eb (flatten_three f n m r) (flatten_one g s) e)
denomination-IsCode (some x) (some y) a b r s ha hb e =
    let (f, n, d, m, hf, hn, hd, hm, ea) = denomination_ok x a ha in
    let (g, n', d', m', hg, hn', hd', hm', eb) = denomination_ok y b hb in
    let e0 = reflow r s ea eb (flatten_three f n m r) (flatten_three g n' m' s) e in
    let (_, e1) = u8-IsCode _ _ f g _ _ hf hg e0 in
    let (name, e2) = prefixed_string-IsCode _ _ n n' _ _ hn hn' e1 in
    let (amount, e3) = decimal-code x.amount y.amount d d' m m' r s hd hd' hm hm' e2 in
    (cc (name, amount), e3)

unfoldable pub release_view : Release → ℤ × ℤ × Result IdError Text
release_view r = (r.seconds, r.nanos, canonical_decimal r.amount)

release_ok :
    (v : Release) (a : List Bytes)
    → release_parts v ≡ ok a
    → (seconds nanos : Bytes) × (digits : Text) × (amount : Bytes) × (u64 v.seconds ≡ ok seconds)
      × (u32 v.nanos ≡ ok nanos)
      × (canonical_decimal v.amount ≡ ok digits)
      × (prefixed_string digits ≡ ok amount)
      × (a ≡ seconds ∷ nanos ∷ amount ∷ [])
unfolding release_parts
release_ok v a h =
    let (seconds, hs, h1) = >>=-eq-ok (u64 v.seconds) _ h in
    let (nanos, hn, h2) = >>=-eq-ok (u32 v.nanos) _ h1 in
    let (digits, hd, h3) = >>=-eq-ok (canonical_decimal v.amount) _ h2 in
    let (amount, hm, h4) = >>=-eq-ok (prefixed_string digits) _ h3 in
    (seconds, nanos, digits, amount, hs, hn, hd, hm, cc h4)

release-IsCode : IsPartsCode release_parts release_view
unfolding release_view
release-IsCode x y a b r s ha hb e =
    let (t, n, d, m, ht, hn, hd, hm, ea) = release_ok x a ha in
    let (t', n', d', m', ht', hn', hd', hm', eb) = release_ok y b hb in
    let e0 = reflow r s ea eb (flatten_three t n m r) (flatten_three t' n' m' s) e in
    let (seconds, e1) = u64-IsCode _ _ t t' _ _ ht ht' e0 in
    let (nanos, e2) = u32-IsCode _ _ n n' _ _ hn hn' e1 in
    let (amount, e3) = decimal-code x.amount y.amount d d' m m' r s hd hd' hm hm' e2 in
    (cc (seconds, nanos, amount), e3)

entries_ok :
    (x : Release) (xs : List Release) (a : List Bytes)
    → entries_parts (x ∷ xs) ≡ ok a
    → (p q : List Bytes) × (release_parts x ≡ ok p) × (entries_parts xs ≡ ok q) × (a ≡ p ++ q)
unfolding entries_parts
entries_ok x xs a h =
    let (p, hp, h1) = >>=-eq-ok (release_parts x) _ h in
    let (q, hq, h2) = >>=-eq-ok (entries_parts xs) _ h1 in (p, q, hp, hq, cc h2)

entries_nil : (a : List Bytes) → entries_parts [] ≡ ok a → a ≡ []
unfolding entries_parts
entries_nil a h = cc

-- Of two schedules of one length.
entries-code :
    (xs ys : List Release) (a b : List Bytes) (r s : Bytes)
    → length xs ≡ length ys
    → entries_parts xs ≡ ok a
    → entries_parts ys ≡ ok b
    → flatten a ++ r ≡ flatten b ++ s
    → (map release_view xs ≡ map release_view ys) × (r ≡ s)
unfolding flatten
entries-code [] [] a b r s size ha hb e =
    (refl, reflow r s (entries_nil a ha) (entries_nil b hb) refl refl e)
entries-code [] (y ∷ ys) a b r s size ha hb e = absurd (omega arith)
entries-code (x ∷ xs) [] a b r s size ha hb e = absurd (omega arith)
entries-code (x ∷ xs) (y ∷ ys) a b r s size ha hb e =
    let (p, q, hp, hq, ea) = entries_ok x xs a ha in
    let (p', q', hp', hq', eb) = entries_ok y ys b hb in
    let e0 = reflow r s ea eb (flatten-append p q r) (flatten-append p' q' s) e in
    let (head, e1) = release-IsCode x y p p' _ _ hp hp' e0 in
    let (tail, e2) = entries-code xs ys q q' r s (omega arith) hq hq' e1 in (cc (head, tail), e2)

schedule_ok :
    (xs : List Release) (a : List Bytes)
    → schedule_parts xs ≡ ok a
    → (count : Bytes) × (q : List Bytes) × (u32 (pos (length xs)) ≡ ok count)
      × (entries_parts xs ≡ ok q)
      × (a ≡ count ∷ q)
unfolding schedule_parts
schedule_ok xs a h =
    let (count, hc, h1) = >>=-eq-ok (u32 (pos (length xs))) _ h in
    let (q, hq, h2) = >>=-eq-ok (entries_parts xs) _ h1 in (count, q, hc, hq, cc h2)

pub schedule-IsCode : IsPartsCode schedule_parts (map release_view)
unfolding flatten
schedule-IsCode xs ys a b r s ha hb e =
    let (c, q, hc, hq, ea) = schedule_ok xs a ha in
    let (c', q', hc', hq', eb) = schedule_ok ys b hb in
    let e0 = reflow r s ea eb (append_assoc c (flatten q) r) (append_assoc c' (flatten q') s) e in
    let (count, e1) = u32-IsCode _ _ c c' _ _ hc hc' e0 in
    entries-code xs ys q q' r s (cc count) hq hq' e1
