-- ===== src/Server/AllocationOutcome/Conservation.antt =====
-- packages/server-wallet/src/models/channel/outcome.ts: what `add` and `remove` do to the funds of
-- any set of destinations.
use statechannels.Common.{
  ◌≡◌, refl, sym, ap, subst, ◌∙◌, Bool, true, false, not, some, List, [], ◌∷◌, ◌++◌, ◌==◌, filter,
  includes, All, arith, Bool-cases, Option-cases, inl, inr,
}
use statechannels.Common.Counting.{Distinct}
use statechannels.Common.Int.{ℤ, ◌+ℤ◌, sum, int_laws, +ℤ_cancel}
use statechannels.Common.Results.{ok}
use statechannels.WalletCore.Types.{Destination, AllocationItem, SimpleAllocation}
use statechannels.WalletCore.Outcome.{are_allocation_items_equal}
use statechannels.Server.AllocationOutcome.{destinations, item_for, zip, all_found, remove, add}
use statechannels.Server.AllocationOutcome.Accounts.{
  Party, everyone, share, held_by, owed_by, dests, AllFound, held_by-append, charge_all-held,
  refund_all-held, owed_by-zip, reduce_amounts-sum, find-includes, sources_suffice-AllFound,
  AllFound-append,
}
use statechannels.Server.AllocationOutcome.Steps.{Adds, add-Adds, Removes, remove-Removes}

held_by-single :
    (w : Party) (c : Destination) (a : ℤ)
    → held_by w (record { destination = c; amount = a } ∷ []) ≡ share w c a
unfolding held_by
held_by-single w c a = omega int_laws

-- Adding a channel charges each source its amount and gives their sum to the channel: so it goes for
-- every set of destinations, and the asset is kept. In all, nothing is gained or lost.
pub add_accounts :
    (w : Party) (c : Destination) (ds : List Destination) (as_ : List ℤ) (o : SimpleAllocation)
    {o' : SimpleAllocation}
    → add c ds as_ o ≡ ok (some o')
    → (held_by w o'.allocation_items +ℤ owed_by w (zip ds as_)
        ≡ held_by w o.allocation_items +ℤ share w c (sum as_))
      × (held_by everyone o'.allocation_items ≡ held_by everyone o.allocation_items)
      × (o'.asset ≡ o.asset)
add_accounts w c ds as_ o {o'} e = (account w, conserved, ground (arith, a.made))
  where
    a : Adds c ds as_ o o'
    a = add-Adds c ds as_ o e

    new_item : AllocationItem
    new_item = record { destination = c; amount = a.total }

    found : AllFound (zip ds as_) o.allocation_items
    found = sources_suffice-AllFound (zip ds as_) o.allocation_items a.suffice

    account :
        (w : Party)
        → held_by w o'.allocation_items +ℤ owed_by w (zip ds as_)
          ≡ held_by w o.allocation_items +ℤ share w c (sum as_)
    account w =
        let t = reduce_amounts-sum as_ a.summed in
        let all = AllFound-append (zip ds as_) o.allocation_items (new_item ∷ []) found in
        subst
          (λ (p : SimpleAllocation).
            held_by w p.allocation_items +ℤ owed_by w (zip ds as_)
            ≡ held_by w o.allocation_items +ℤ share w c (sum as_))
          a.made
          (sym (charge_all-held w (zip ds as_) (o.allocation_items ++ new_item ∷ []) all)
            ∙ held_by-append w o.allocation_items (new_item ∷ [])
            ∙ rw (t, held_by-single) refl)

    conserved : held_by everyone o'.allocation_items ≡ held_by everyone o.allocation_items
    conserved =
        +ℤ_cancel (held_by everyone o'.allocation_items) (held_by everyone o.allocation_items)
          (sum as_)
          (ap (λ t. held_by everyone o'.allocation_items +ℤ t)
              (sym (owed_by-zip ds as_ a.same_length))
            ∙ account everyone)

abbrev pub unlike : AllocationItem → AllocationItem → Bool
unlike item i = not (are_allocation_items_equal i item)

pub filter-unlike-absent :
    (item : AllocationItem) (is : List AllocationItem)
    → includes item.destination (dests is) ≡ false
    → filter (unlike item) is ≡ is
unfolding are_allocation_items_equal
filter-unlike-absent item [] h = refl
filter-unlike-absent item (i ∷ is) h = ground (arith, filter-unlike-absent item is)

pub find-destination :
    (c : Destination) (is : List AllocationItem) {item : AllocationItem}
    → item_for c is ≡ some item
    → item.destination ≡ c
find-destination c [] e = absurd (cc)
find-destination c (i ∷ is) {item} e = elim (Bool-cases (i.destination == c)) [
  | inl q ↦
      let same : i ≡ item = ground arith in
      let at : i.destination ≡ c = ground arith in ap (λ x. x.destination) (sym same) ∙ at
  | inr q ↦ find-destination c is {item = item} (ground arith)
]

-- The item found is the only one that `_.remove` takes out.
removed-held :
    (w : Party) (c : Destination) (is : List AllocationItem) {item : AllocationItem}
    → Distinct (dests is)
    → item_for c is ≡ some item
    → held_by w is ≡ held_by w (filter (unlike item) is) +ℤ share w c item.amount
unfolding held_by are_allocation_items_equal
removed-held w c [] d e = absurd (cc)
removed-held w c (i ∷ is) {item} d e = elim (Bool-cases (i.destination == c)) [
  | inl q ↦
      let same : i ≡ item = ground arith in
      let at : i.destination ≡ c = ground arith in
      let gone : are_allocation_items_equal i i ≡ true = ground arith in
      subst (λ x. held_by w (i ∷ is) ≡ held_by w (filter (unlike x) (i ∷ is)) +ℤ share w c x.amount)
        same (rw (gone, filter-unlike-absent i is d.0, at) (omega int_laws))
  | inr q ↦
      let found : item_for c is ≡ some item = ground arith in
      let there : item.destination ≡ c = find-destination c is found in
      let kept : are_allocation_items_equal i item ≡ false = ground arith in
      rw (kept, removed-held w c is {item = item} d.1 found) (omega int_laws)
]

includes-removed :
    (d : Destination) (item : AllocationItem) (is : List AllocationItem)
    → (item.destination == d) ≡ false
    → includes d (dests is) ≡ true
    → includes d (dests (filter (unlike item) is)) ≡ true
unfolding are_allocation_items_equal
includes-removed d item [] n h = absurd (cc)
includes-removed d item (i ∷ is) n h = ground (arith, includes-removed d item is)

AllFound-removed :
    (c : Destination) (item : AllocationItem) (ds : List Destination) (as_ : List ℤ)
    (is : List AllocationItem)
    → item.destination ≡ c
    → includes c ds ≡ false
    → all_found ds is ≡ true
    → AllFound (zip ds as_) (filter (unlike item) is)
AllFound-removed c item [] as_ is at n h = tt
AllFound-removed c item (d ∷ ds) [] is at n h = tt
AllFound-removed c item (d ∷ ds) (a ∷ as_) is at n h = elim (Option-cases (item_for d is)) [
  | inl missing ↦ absurd (ground arith)
  | inr (i, found) ↦ (
    includes-removed d item is (rw at (ground arith)) (find-includes d is found),
    AllFound-removed c item ds as_ is at (ground arith) (ground arith),
  )
]

zip-avoids :
    (c : Destination) (ds : List Destination) (as_ : List ℤ)
    → includes c ds ≡ false
    → All (λ da. (da.0 == c) ≡ false) (zip ds as_)
zip-avoids c [] as_ n = tt
zip-avoids c (d ∷ ds) [] n = tt
zip-avoids c (d ∷ ds) (a ∷ as_) n = (ground arith, zip-avoids c ds as_ (ground arith))

pub remove_accounts :
    (w : Party) (c : Destination) (ds : List Destination) (as_ : List ℤ) (o : SimpleAllocation)
    {o' : SimpleAllocation}
    → Distinct (destinations o)
    → includes c ds ≡ false
    → remove c ds as_ o ≡ ok (some o')
    → (held_by w o'.allocation_items +ℤ share w c (sum as_)
        ≡ held_by w o.allocation_items +ℤ owed_by w (zip ds as_))
      × (held_by everyone o'.allocation_items ≡ held_by everyone o.allocation_items)
      × (o'.asset ≡ o.asset)
remove_accounts w c ds as_ o {o'} distinct avoids e = (account w, conserved, ground (arith, r.made))
  where
    r : Removes c ds as_ o o'
    r = remove-Removes c ds as_ o e

    kept : List AllocationItem
    kept = filter (unlike r.item) o.allocation_items

    account :
        (w : Party)
        → held_by w o'.allocation_items +ℤ share w c (sum as_)
          ≡ held_by w o.allocation_items +ℤ owed_by w (zip ds as_)
    account w =
        let t = reduce_amounts-sum as_ r.summed in
        let at = find-destination c o.allocation_items r.found in
        let all = AllFound-removed c r.item ds as_ o.allocation_items at avoids r.refundable in
        let refunded = refund_all-held w c (zip ds as_) kept (zip-avoids c ds as_ avoids) all in
        let before = removed-held w c o.allocation_items distinct r.found in
        subst
          (λ (p : SimpleAllocation).
            held_by w p.allocation_items +ℤ share w c (sum as_)
            ≡ held_by w o.allocation_items +ℤ owed_by w (zip ds as_))
          r.made (rw (refunded, before, sym t) (omega int_laws))

    conserved : held_by everyone o'.allocation_items ≡ held_by everyone o.allocation_items
    conserved =
        +ℤ_cancel (held_by everyone o'.allocation_items) (held_by everyone o.allocation_items)
          (sum as_)
          (account everyone
            ∙ ap (λ t. held_by everyone o.allocation_items +ℤ t) (owed_by-zip ds as_ r.same_length))
