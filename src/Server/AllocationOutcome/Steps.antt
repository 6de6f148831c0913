-- ===== src/Server/AllocationOutcome/Steps.antt =====
-- packages/server-wallet/src/models/channel/outcome.ts: the checks that `add` and `remove` have passed
-- when they return an outcome.
use statechannels.Common.{
  ◌≡◌, refl, sym, ap, ◌∙◌, true, some, List, ◌==◌, length, arith, Bool-cases, Option-cases, inl,
  inr,
}
use statechannels.Common.Int.{ℤ, eqb_ℤ, eqb_ℤ→eq}
use statechannels.Common.Results.{Result, ok, err, >>=-eq-ok}
use statechannels.WalletCore.Types.{Destination, AllocationItem, SimpleAllocation}
use statechannels.Server.AllocationOutcome.{
  item_for, zip, all_found, removed, remove, reduce_amounts, sources_suffice, added, add,
}

-- What a successful `add` has passed.
pub record Adds (c : Destination) (ds : List Destination) (as_ : List ℤ) (o o' : SimpleAllocation)
    : Type 0 where
  pub total : ℤ
  pub same_length : length ds ≡ length as_
  pub suffice : sources_suffice (zip ds as_) o.allocation_items ≡ true
  pub summed : reduce_amounts as_ ≡ ok total
  pub made : added c (zip ds as_) total o ≡ o'

pub add-Adds :
    (c : Destination) (ds : List Destination) (as_ : List ℤ) (o : SimpleAllocation)
    {o' : SimpleAllocation}
    → add c ds as_ o ≡ ok (some o')
    → Adds c ds as_ o o'
unfolding add
add-Adds c ds as_ o {o'} e = elim (Bool-cases (length ds == length as_)) [
  | inr differ ↦ absurd (ground arith)
  | inl same ↦ elim (Bool-cases (sources_suffice (zip ds as_) o.allocation_items)) [
    | inr short ↦ absurd (ground arith)
    | inl enough ↦
        let (total, summed, made) =
          >>=-eq-ok (reduce_amounts as_) (λ total. ok (some (added c (zip ds as_) total o)))
            {b = some o'} (ground arith) in
        record {
          total = total;
          same_length = ground arith;
          suffice = enough;
          summed = summed;
          made = cc made;
        }
  ]
]

-- What a successful `remove` has passed.
pub record Removes (c : Destination) (ds : List Destination) (as_ : List ℤ)
    (o o' : SimpleAllocation) : Type 0 where
  pub item : AllocationItem
  pub same_length : length ds ≡ length as_
  pub found : item_for c o.allocation_items ≡ some item
  pub refundable : all_found ds o.allocation_items ≡ true
  pub summed : reduce_amounts as_ ≡ ok item.amount
  pub made : removed c (zip ds as_) item o ≡ o'

pub remove-Removes :
    (c : Destination) (ds : List Destination) (as_ : List ℤ) (o : SimpleAllocation)
    {o' : SimpleAllocation}
    → remove c ds as_ o ≡ ok (some o')
    → Removes c ds as_ o o'
unfolding remove
remove-Removes c ds as_ o {o'} e = elim (Bool-cases (length ds == length as_)) [
  | inr differ ↦ absurd (ground arith)
  | inl same ↦ elim (Option-cases (item_for c o.allocation_items)) [
    | inl missing ↦ absurd (ground arith)
    | inr (item, found) ↦ elim (Bool-cases (all_found ds o.allocation_items)) [
      | inr lost ↦ absurd (ground arith)
      | inl all_in ↦ by_total item (ground arith) found all_in (reduce_amounts as_) refl
    ]
  ]
]
  where
    by_total :
        (item : AllocationItem)
        → length ds ≡ length as_
        → item_for c o.allocation_items ≡ some item
        → all_found ds o.allocation_items ≡ true
        → (t : Result ℤ) → reduce_amounts as_ ≡ t
        → Removes c ds as_ o o'
    by_total item same found all_in (err x) q = absurd (ground arith)
    by_total item same found all_in (ok total) q = elim (Bool-cases (eqb_ℤ item.amount total)) [
      | inr off ↦ absurd (ground arith)
      | inl equal ↦ record {
        item = item;
        same_length = same;
        found = found;
        refundable = all_in;
        summed = q ∙ ap ok (sym (eqb_ℤ→eq item.amount total equal));
        made = ground arith;
      }
    ]
