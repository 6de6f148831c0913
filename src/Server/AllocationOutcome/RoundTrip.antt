-- ===== src/Server/AllocationOutcome/RoundTrip.antt =====
-- packages/server-wallet/src/models/channel/outcome.ts: a channel is added and then removed.
use statechannels.Common.{
  ◌≡◌, refl, sym, ap, subst, ◌∙◌, true, false, some, List, [], ◌∷◌, ◌++◌, ◌==◌, length, filter,
  includes, All, arith, Bool-cases, inl, inr,
}
use statechannels.Common.Int.{ℤ, ◌+ℤ◌, ◌-ℤ◌, eqb_ℤ, int_laws}
use statechannels.Common.Results.{ok}
use statechannels.WalletCore.Types.{Destination, AllocationItem, SimpleAllocation}
use statechannels.WalletCore.Outcome.{are_allocation_items_equal}
use statechannels.Server.AllocationOutcome.{
  destinations, item_for, zip, credit, charge, refund_all, charge_all, all_found, removed, remove,
  reduce_amounts, add,
}
use statechannels.Server.AllocationOutcome.Accounts.{
  dests, AllFound, charge-dests, sources_suffice-AllFound,
}
use statechannels.Server.AllocationOutcome.Steps.{Adds, add-Adds}
use statechannels.Server.AllocationOutcome.Conservation.{unlike}

credit-charge_same :
    (da : Destination × ℤ) (is : List AllocationItem) → credit da (charge da is) ≡ is
unfolding credit charge
credit-charge_same da [] = refl
credit-charge_same da (i ∷ is) = elim (Bool-cases (i.destination == da.0)) [
  | inl e ↦ let back : i.amount -ℤ da.1 +ℤ da.1 ≡ i.amount = omega int_laws in rw (e, e, back) refl
  | inr e ↦ rw (e, e, credit-charge_same da is) refl
]

credit-charge :
    (da db : Destination × ℤ) (is : List AllocationItem)
    → credit da (charge db is) ≡ charge db (credit da is)
unfolding credit charge
credit-charge da db [] = refl
credit-charge da db (i ∷ is) = elim (Bool-cases (i.destination == da.0)) [
  | inl e ↦ elim (Bool-cases (i.destination == db.0)) [
    | inl f ↦
        let swap : i.amount -ℤ db.1 +ℤ da.1 ≡ i.amount +ℤ da.1 -ℤ db.1 = omega int_laws in
        rw (e, f, e, swap) refl
    | inr f ↦ rw (e, f, e) refl
  ]
  | inr e ↦ elim (Bool-cases (i.destination == db.0)) [
    | inl f ↦ rw (e, f, e) refl
    | inr f ↦ rw (e, f, e, credit-charge da db is) refl
  ]
]

credit-charge_all :
    (da : Destination × ℤ) (das : List (Destination × ℤ)) (is : List AllocationItem)
    → credit da (charge_all das is) ≡ charge_all das (credit da is)
unfolding charge_all
credit-charge_all da [] is = refl
credit-charge_all da (db ∷ das) is =
    credit-charge_all da das (charge db is) ∙ ap (charge_all das) (credit-charge da db is)

refund_all-charge_all :
    (c : Destination) (das : List (Destination × ℤ)) (is : List AllocationItem)
    → All (λ da. (da.0 == c) ≡ false) das
    → refund_all c das (charge_all das is) ≡ is
unfolding charge_all refund_all
refund_all-charge_all c [] is a = refl
refund_all-charge_all c (da ∷ das) is a = rw a.0 (
    ap (refund_all c das)
      (credit-charge_all da das (charge da is) ∙ ap (charge_all das) (credit-charge_same da is))
    ∙ refund_all-charge_all c das is a.1)

charge-append :
    (da : Destination × ℤ) (is js : List AllocationItem)
    → includes da.0 (dests is) ≡ true
    → charge da (is ++ js) ≡ charge da is ++ js
unfolding charge
charge-append da [] js h = absurd (cc)
charge-append da (i ∷ is) js h = elim (Bool-cases (i.destination == da.0)) [
  | inl e ↦ rw e refl
  | inr e ↦ rw (e, charge-append da is js (ground arith)) refl
]

charge_all-dests :
    (das : List (Destination × ℤ)) (is : List AllocationItem) → dests (charge_all das is) ≡ dests is
unfolding charge_all
charge_all-dests [] is = refl
charge_all-dests (da ∷ das) is = charge_all-dests das (charge da is) ∙ charge-dests da is

charge_all-append :
    (das : List (Destination × ℤ)) (is js : List AllocationItem)
    → AllFound das is
    → charge_all das (is ++ js) ≡ charge_all das is ++ js
unfolding charge_all
charge_all-append [] is js h = refl
charge_all-append (da ∷ das) is js h =
    ap (charge_all das) (charge-append da is js h.0)
    ∙ charge_all-append das (charge da is) js
        (subst (λ ds. All (λ da. includes da.0 ds ≡ true) das) (sym (charge-dests da is)) h.1)

item_for-new :
    (c : Destination) (is : List AllocationItem) (i : AllocationItem)
    → includes c (dests is) ≡ false
    → i.destination ≡ c
    → item_for c (is ++ i ∷ []) ≡ some i
item_for-new c [] i n at = ground arith
item_for-new c (x ∷ is) i n at = let rest = item_for-new c is i in ground arith

filter-new :
    (is : List AllocationItem) (i : AllocationItem)
    → includes i.destination (dests is) ≡ false
    → filter (unlike i) (is ++ i ∷ []) ≡ is
unfolding are_allocation_items_equal
filter-new [] i n = ground arith
filter-new (x ∷ is) i n = let rest = filter-new is i in ground arith

found_in :
    (d : Destination) (is js : List AllocationItem)
    → includes d (dests is) ≡ true
    → (i : AllocationItem) × (item_for d (is ++ js) ≡ some i)
found_in d [] js h = absurd (cc)
found_in d (x ∷ is) js h = elim (Bool-cases (x.destination == d)) [
  | inl e ↦ (x, rw e refl)
  | inr e ↦ let (i, f) = found_in d is js (ground arith) in (i, rw e f)
]

all_found-append :
    (ds : List Destination) (as_ : List ℤ) (is js : List AllocationItem)
    → length ds ≡ length as_
    → AllFound (zip ds as_) is
    → all_found ds (is ++ js) ≡ true
all_found-append [] as_ is js same h = refl
all_found-append (d ∷ ds) [] is js same h = absurd (omega arith)
all_found-append (d ∷ ds) (a ∷ as_) is js same h =
    let (i, found) = found_in d is js h.0 in
    rw (found, all_found) (all_found-append ds as_ is js (omega arith) h.1)

AllFound-avoids :
    (c : Destination) (das : List (Destination × ℤ)) (is : List AllocationItem)
    → includes c (dests is) ≡ false
    → AllFound das is
    → All (λ da. (da.0 == c) ≡ false) das
AllFound-avoids c [] is n h = tt
AllFound-avoids c (da ∷ das) is n h = (ne, AllFound-avoids c das is n h.1)
  where
    ne : (da.0 == c) ≡ false
    ne = elim (Bool-cases (da.0 == c)) [
      | inr q ↦ q
      | inl q ↦
          let same : da.0 ≡ c = ground arith in
          absurd (cc (n, subst (λ x. includes x (dests is) ≡ true) same h.0))
    ]

remove_runs :
    (c : Destination) (ds : List Destination) (as_ : List ℤ) (o : SimpleAllocation)
    (item : AllocationItem)
    → (length ds == length as_) ≡ true
    → item_for c o.allocation_items ≡ some item
    → all_found ds o.allocation_items ≡ true
    → reduce_amounts as_ ≡ ok item.amount
    → eqb_ℤ item.amount item.amount ≡ true
    → remove c ds as_ o ≡ ok (some (removed c (zip ds as_) item o))
unfolding remove
remove_runs c ds as_ o item same found all_in summed equal =
    rw (same, found, all_in, summed, equal) refl

-- A channel that is new to the ledger and was added can be removed with the same request, and that
-- gives back the outcome as it was, item by item.
pub add-remove :
    (c : Destination) (ds : List Destination) (as_ : List ℤ) (o : SimpleAllocation)
    {o' : SimpleAllocation}
    → includes c (destinations o) ≡ false
    → add c ds as_ o ≡ ok (some o')
    → remove c ds as_ o' ≡ ok (some o)
add-remove c ds as_ o {o'} fresh e =
    subst (λ p. remove c ds as_ p ≡ ok (some o)) (sym made)
      (remove_runs c ds as_ (with_items (charged ++ new_item ∷ [])) new_item same is_found all_in
          a.summed equal
        ∙ ap (λ is. ok (some (with_items (refund_all c das is)))) emptied
        ∙ ap (λ is. ok (some (with_items is))) restored)
  where
    a : Adds c ds as_ o o'
    a = add-Adds c ds as_ o e

    das : List (Destination × ℤ)
    das = zip ds as_

    new_item : AllocationItem
    new_item = record { destination = c; amount = a.total }

    charged : List AllocationItem
    charged = charge_all das o.allocation_items

    found : AllFound das o.allocation_items
    found = sources_suffice-AllFound das o.allocation_items a.suffice

    appended : charge_all das (o.allocation_items ++ new_item ∷ []) ≡ charged ++ new_item ∷ []
    appended = charge_all-append das o.allocation_items (new_item ∷ []) found

    kept : dests charged ≡ destinations o
    kept = charge_all-dests das o.allocation_items

    still_fresh : includes c (dests charged) ≡ false
    still_fresh = ap (includes c) kept ∙ fresh

    with_items : List AllocationItem → SimpleAllocation
    with_items is = record o { allocation_items = is }

    made : o' ≡ with_items (charged ++ new_item ∷ [])
    made = sym a.made ∙ ap with_items appended

    same : (length ds == length as_) ≡ true
    same = let l = a.same_length in ground arith

    is_found : item_for c (charged ++ new_item ∷ []) ≡ some new_item
    is_found = item_for-new c charged new_item still_fresh refl

    all_in : all_found ds (charged ++ new_item ∷ []) ≡ true
    all_in =
        all_found-append ds as_ charged (new_item ∷ []) a.same_length
          (subst (λ xs. All (λ da. includes da.0 xs ≡ true) das) (sym kept) found)

    equal : eqb_ℤ a.total a.total ≡ true
    equal = ground arith

    emptied : filter (unlike new_item) (charged ++ new_item ∷ []) ≡ charged
    emptied = filter-new charged new_item still_fresh

    restored : refund_all c das charged ≡ o.allocation_items
    restored =
        refund_all-charge_all c das o.allocation_items
          (AllFound-avoids c das o.allocation_items fresh found)
