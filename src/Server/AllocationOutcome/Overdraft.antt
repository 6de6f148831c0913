-- ===== src/Server/AllocationOutcome/Overdraft.antt =====
-- packages/server-wallet/src/models/channel/outcome.ts: one source named twice in `add`.
use statechannels.Common.{
  ◌≡◌, refl, subst, true, some, List, [], ◌∷◌, ◌++◌, ◌==◌, arith, Bool-cases, inl, inr,
}
use statechannels.Common.Int.{ℤ, pos, ◌+ℤ◌, ◌-ℤ◌, ltb_ℤ, ◌≤ℤ◌, leb_ℤ, +ℤ_parts, -ℤ_parts}
use statechannels.Common.Results.{ok}
use statechannels.WalletCore.Types.{Destination, AllocationItem, SimpleAllocation}
use statechannels.Server.AllocationOutcome.{
  item_for, balance_for, charge, charge_all, reduce_amounts, sources_suffice, added, add,
}

item_for-charge :
    (d : Destination) (a : ℤ) (is : List AllocationItem) {i : AllocationItem}
    → item_for d is ≡ some i
    → item_for d (charge (d, a) is) ≡ some (record i { amount = i.amount -ℤ a })
unfolding charge
item_for-charge d a [] e = absurd (cc)
item_for-charge d a (x ∷ is) {i} e = elim (Bool-cases (x.destination == d)) [
  | inl q ↦
      let same : x ≡ i = ground arith in
      subst (λ y. item_for d (charge (d, a) (x ∷ is)) ≡ some (record y { amount = y.amount -ℤ a }))
        same (rw (q, q) refl)
  | inr q ↦ rw (q, q, item_for-charge d a is {i = i} (ground arith)) refl
]

item_for-append :
    (d : Destination) (is js : List AllocationItem) {i : AllocationItem}
    → item_for d is ≡ some i
    → item_for d (is ++ js) ≡ some i
item_for-append d [] js e = absurd (cc)
item_for-append d (x ∷ is) js {i} e = let rest = item_for-append d is js {i = i} in ground arith

both_suffice :
    (d : Destination) (a b : ℤ) (items : List AllocationItem) {i : AllocationItem}
    → item_for d items ≡ some i
    → leb_ℤ a i.amount ≡ true
    → leb_ℤ b i.amount ≡ true
    → sources_suffice ((d, a) ∷ (d, b) ∷ []) items ≡ true
unfolding sources_suffice
both_suffice d a b items found h k = ground arith

-- The checks of `add` do not see that two of its sources are one: where the destination has enough for
-- each of two charges but not for both, the channel is added, and the destination's balance is below
-- zero.
pub add_overdraws :
    (c d : Destination) (a b : ℤ) (o : SimpleAllocation) {i : AllocationItem}
    → item_for d o.allocation_items ≡ some i
    → a ≤ℤ i.amount
    → b ≤ℤ i.amount
    → ltb_ℤ i.amount (a +ℤ b) ≡ true
    → (o' : SimpleAllocation) × (left : ℤ) × (add c (d ∷ d ∷ []) (a ∷ b ∷ []) o ≡ ok (some o'))
      × (balance_for d o' ≡ some left)
      × (ltb_ℤ left (pos 0) ≡ true)
unfolding add reduce_amounts charge_all
add_overdraws c d a b o {i} found h k over = (
  added c ((d, a) ∷ (d, b) ∷ []) (a +ℤ b) o,
  i.amount -ℤ a -ℤ b,
  rw both refl,
  rw (twice, balance_for) refl,
  negative,
)
  where
    enough : (x : ℤ) → x ≤ℤ i.amount → leb_ℤ x i.amount ≡ true
    enough x l = ground arith

    new_item : AllocationItem
    new_item = record { destination = c; amount = a +ℤ b }

    both : sources_suffice ((d, a) ∷ (d, b) ∷ []) o.allocation_items ≡ true
    both = both_suffice d a b o.allocation_items found (enough a h) (enough b k)

    items : List AllocationItem
    items = o.allocation_items ++ new_item ∷ []

    once : item_for d (charge (d, a) items) ≡ some (record i { amount = i.amount -ℤ a })
    once = item_for-charge d a items (item_for-append d o.allocation_items (new_item ∷ []) found)

    twice :
        item_for d (charge (d, b) (charge (d, a) items))
        ≡ some (record i { amount = i.amount -ℤ a -ℤ b })
    twice = item_for-charge d b (charge (d, a) items) once

    negative : ltb_ℤ (i.amount -ℤ a -ℤ b) (pos 0) ≡ true
    negative =
        let x = -ℤ_parts i.amount a in
        let y = -ℤ_parts (i.amount -ℤ a) b in let z = +ℤ_parts a b in ground arith
