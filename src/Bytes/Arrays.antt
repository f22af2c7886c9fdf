-- ===== src/Bytes/Arrays.antt =====
-- src/shared/utils/byte-utils.ts: concatenation, comparison and padding against list operations.
use mathlib.Core.List.{flatten, append-nil, append_assoc}
use native.Mathlib.Nat.{zero-add, suc-add}
use kalvora_js.Common.{
  ℕ, zero, suc, ◌+◌, ◌-◌, ◌≤◌, ◌≡◌, refl, sym, ap, ◌∙◌, ◌↔◌, true, false, List, [], ◌∷◌, ◌++◌,
  arith, length, drop, replicate, length-append, length-replicate, take-append_length,
  drop-append_length, text_eq_iff, text_eq,
}
use kalvora_js.Bytes.{
  Bytes, set_at, concat_loop, total_length, concat_bytes, same_bytes, bytes_equal, fixed_bytes,
}

drop-add : (i j : ℕ) (xs : Bytes) → drop (i + j) xs ≡ drop j (drop i xs)
drop-add zero j xs = rw zero-add
drop-add (suc i) j (x ∷ xs) = rw suc-add (drop-add i j xs)
drop-add (suc i) zero [] = rw suc-add
drop-add (suc i) (suc j) [] = rw suc-add

drop-replicate : (i j : ℕ) → drop i (replicate (i + j) (let z : ℕ = 0 in z)) ≡ replicate j 0
drop-replicate zero j = rw zero-add
drop-replicate (suc i) j = rw suc-add (drop-replicate i j)

zeros : ℕ → Bytes
zeros n = replicate n 0

-- Writing behind a finished prefix, over zeros.
set_at-zeros :
    (done arr : Bytes) (rest : ℕ)
    → set_at (done ++ replicate (length arr + rest) 0) (length done) arr
      ≡ (done ++ arr) ++ replicate rest 0
unfolding set_at
set_at-zeros done arr rest =
    rw
      (
        take-append_length done _,
        drop-add (length done) (length arr) _,
        drop-append_length done _,
        drop-replicate (length arr) rest,
      )
      (sym (append_assoc done arr _))

concat_loop-flatten :
    (arrays : List Bytes) (done : Bytes)
    → concat_loop (done ++ replicate (total_length arrays) 0) (length done) arrays
      ≡ done ++ flatten arrays
unfolding concat_loop total_length flatten
concat_loop-flatten [] done = refl
concat_loop-flatten (arr ∷ arrays) done =
    rw (set_at-zeros done arr (total_length arrays), ← length-append done arr)
      (concat_loop-flatten arrays (done ++ arr) ∙ append_assoc done arr (flatten arrays))

-- Copying every array at the running offset of one zeroed buffer gives the arrays in order, with
-- nothing lost, overwritten or left over.
pub concat_bytes-flatten : (arrays : List Bytes) → concat_bytes arrays ≡ flatten arrays
unfolding concat_bytes
concat_bytes-flatten arrays = concat_loop-flatten arrays []

same_bytes-text_eq : (a b : Bytes) → length a ≡ length b → same_bytes a b ≡ text_eq a b
unfolding same_bytes
same_bytes-text_eq [] [] e = refl
same_bytes-text_eq [] (y ∷ ys) e = absurd (omega arith)
same_bytes-text_eq (x ∷ xs) [] e = refl
same_bytes-text_eq (x ∷ xs) (y ∷ ys) e = ground (arith, same_bytes-text_eq xs ys)

-- The comparison answers true exactly for equal arrays.
bytes_equal_iff : (a b : Bytes) → (bytes_equal a b ≡ true) ↔ (a ≡ b)
unfolding bytes_equal
bytes_equal_iff a b = (to, from)
  where
    to : bytes_equal a b ≡ true → a ≡ b
    to h = ground (arith, same_bytes-text_eq a b, text_eq_iff a b)

    from : a ≡ b → bytes_equal a b ≡ true
    from e = ground (arith, same_bytes-text_eq a b, text_eq_iff a b, ap length e)

replicate-append : (i j : ℕ) → zeros i ++ zeros j ≡ zeros (i + j)
unfolding zeros
replicate-append zero j = rw zero-add
replicate-append (suc i) j = rw suc-add (ap (λ t. 0 ∷ t) (replicate-append i j))

set_at-inside :
    (i k : ℕ) (bytes : Bytes)
    → set_at (zeros (i + (length bytes + k))) i bytes ≡ zeros i ++ (bytes ++ zeros k)
unfolding zeros
set_at-inside i k bytes =
    ap (λ t. set_at t i bytes) (sym (replicate-append i (length bytes + k)))
    ∙ ap (λ t. set_at (zeros i ++ zeros (length bytes + k)) t bytes) (sym (length-replicate i 0))
    ∙ set_at-zeros (zeros i) bytes k
    ∙ append_assoc (zeros i) bytes (zeros k)

set_at_end :
    (bytes : Bytes) (size : ℕ)
    → length bytes ≤ size
    → set_at (replicate size 0) (size - length bytes) bytes
      ≡ replicate (size - length bytes) 0 ++ bytes
unfolding zeros
set_at_end bytes size h =
    let e : size ≡ size - length bytes + (length bytes + 0) = omega arith in
    ap (λ t. set_at (zeros t) (size - length bytes) bytes) e
    ∙ set_at-inside (size - length bytes) 0 bytes
    ∙ ap (λ t. zeros (size - length bytes) ++ t) (append-nil bytes)

set_at_start :
    (bytes : Bytes) (size : ℕ)
    → length bytes ≤ size
    → set_at (replicate size 0) 0 bytes ≡ bytes ++ replicate (size - length bytes) 0
unfolding zeros
set_at_start bytes size h =
    let e : size ≡ 0 + (length bytes + (size - length bytes)) = omega arith in
    ap (λ t. set_at (zeros t) 0 bytes) e ∙ set_at-inside 0 (size - length bytes) bytes

-- Padding: the bytes are kept whole, after zeros with `padStart` and before them without.
fixed_bytes-pad :
    (bytes : Bytes) (size : ℕ)
    → length bytes ≤ size
    → (fixed_bytes bytes size true ≡ replicate (size - length bytes) 0 ++ bytes)
      × (fixed_bytes bytes size false ≡ bytes ++ replicate (size - length bytes) 0)
unfolding fixed_bytes
fixed_bytes-pad bytes size h =
    ground (arith, set_at_end bytes size h, set_at_start bytes size h, append-nil bytes)
