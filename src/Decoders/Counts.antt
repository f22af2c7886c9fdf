-- ===== src/Decoders/Counts.antt =====
-- src/query/decoders.ts: the numbers of transactions of each type in a block.
use kalvora_js.Common.{
  ℕ, ◌+◌, ◌≡◌, refl, ap, ◌∙◌, Bool, true, false, Option, none, some, List, [], ◌∷◌, ◌++◌, map,
  if◌then◌else◌, ◌==◌, length, arith,
}
use kalvora_js.Bytes.{Bytes}
use kalvora_js.Decoders.Block.{
  TxnList, coin_txns, txn_type, txns_lists, required_version_type, Txns, BlockTransaction, entry,
  all_entries, list_block_transactions, add_one, by_type,
}

-- The number that a table has for a type.
abbrev pub count_of : ℕ → List (ℕ × ℕ) → ℕ
count_of k [] = 0
count_of k ((j, n) ∷ counts) = if j == k then n else count_of k counts

abbrev one_if : Bool → ℕ
one_if true = 1
one_if false = 0

abbrev pub tally : {T : Type 0} → ℕ → List (BlockTransaction T) → ℕ
tally k [] = 0
tally k (t ∷ txns) = one_if (t.number == k) + tally k txns

count_of-add_one :
    (k j : ℕ) (counts : List (ℕ × ℕ))
    → count_of k (add_one j counts) ≡ one_if (j == k) + count_of k counts
unfolding add_one
count_of-add_one k j [] = ground arith
count_of-add_one k j ((i, n) ∷ counts) = ground (arith, count_of-add_one k j counts)

count_of-by_type :
    {T : Type 0} (k : ℕ) (txns : List (BlockTransaction T)) (counts : List (ℕ × ℕ))
    → count_of k (by_type txns counts) ≡ tally k txns + count_of k counts
unfolding by_type
count_of-by_type k [] counts = omega arith
count_of-by_type k (t ∷ txns) counts =
    omega
      (arith, count_of-by_type k txns (add_one t.number counts), count_of-add_one k t.number counts)

tally-append :
    {T : Type 0} (k : ℕ) (xs ys : List (BlockTransaction T))
    → tally k (xs ++ ys) ≡ tally k xs + tally k ys
tally-append k [] ys = omega arith
tally-append k (t ∷ xs) ys = omega (arith, tally-append k xs ys)

module _ {T : Type 0} (hash_of : T → Option Bytes) where
  tally-entries :
      (k number : ℕ) (l : Option TxnList) (txns : List T)
      → tally k (map (entry hash_of number l) txns) ≡ (if number == k then length txns else 0)
  tally-entries k number l [] = ground arith
  tally-entries k number l (t ∷ txns) = ground (arith, tally-entries k number l txns)

  abbrev shares : ℕ → Txns T → List TxnList → ℕ
  shares k txns [] = 0
  shares k txns (l ∷ lists) =
      (if txn_type l == k then length (txns.lists l) else 0) + shares k txns lists

  tally-all_entries :
      (k : ℕ) (txns : Txns T) (lists : List TxnList)
      → tally k (all_entries hash_of txns lists) ≡ shares k txns lists
  unfolding all_entries
  tally-all_entries k txns [] = refl
  tally-all_entries k txns (l ∷ lists) =
      tally-append k (map (entry hash_of (txn_type l) (some l)) (txns.lists l))
        (all_entries hash_of txns lists)
      ∙ omega (
        arith,
        tally-entries k (txn_type l) (some l) (txns.lists l),
        tally-all_entries k txns lists,
      )

  own_share :
      (txns : Txns T) (l : TxnList) → shares (txn_type l) txns txns_lists ≡ length (txns.lists l)
  unfolding txn_type
  own_share txns coin_txns = omega arith
  own_share txns _ = omega arith

  not_required : (l : TxnList) → (required_version_type == txn_type l) ≡ false
  unfolding txn_type
  not_required coin_txns = refl
  not_required _ = refl

  tally-required :
      (l : TxnList) (o : Option T)
      → tally (txn_type l) (elim o as (λ _. List (BlockTransaction T)) [
        | none ↦ []
        | some txn ↦ entry hash_of required_version_type none txn ∷ []
      ])
        ≡ 0
  tally-required l none = refl
  tally-required l (some txn) = rw (not_required l) refl

  -- In the summary of a block the number of transactions of a list's type is the number of
  -- transactions in this list, for each of the lists, whatever the block requires as its version.
  pub by_type-length :
      (txns : Txns T) (l : TxnList)
      → count_of (txn_type l) (by_type (list_block_transactions hash_of (some txns)) [])
        ≡ length (txns.lists l)
  unfolding list_block_transactions
  by_type-length txns l =
      let k = txn_type l in
      count_of-by_type k (list_block_transactions hash_of (some txns)) []
      ∙ ap (λ n. n + 0) (tally-append k (all_entries hash_of txns txns_lists) _)
      ∙ omega (
        arith,
        tally-all_entries k txns txns_lists,
        own_share txns l,
        tally-required l txns.required_version,
      )
