-- ===== src/WalletCore/Outcome/Allocate.antt =====
-- `allocateToTarget` of packages/wallet-core/src/utils/outcome.ts: the balance of every destination.
use statechannels.Common.{
  ◌≡◌, refl, ◌≢◌, subst, true, List, [], ◌∷◌, ◌++◌, ◌==◌, if◌then◌else◌, filter, All, map, arith,
  Bool-cases, inl, inr,
}
use statechannels.Common.Int.{ℤ, pos, ◌+ℤ◌, ◌-ℤ◌, ◌≤ℤ◌, ltb_ℤ, sum, +ℤ_parts, -ℤ_parts, int_laws}
use statechannels.Common.Results.{ok, >>=-eq-ok}
use statechannels.WalletCore.Types.{
  Destination, AllocationItem, SimpleAllocation, simple_allocation,
}
use statechannels.WalletCore.Outcome.{is_positive, debit, deduct, paid, allocate_to_target}

-- What a list of items holds for one destination, over all items of that destination.
unfoldable pub balance : Destination → List AllocationItem → ℤ
balance d [] = pos 0
balance d (i ∷ is) = (if i.destination == d then i.amount else pos 0) +ℤ balance d is

abbrev pub IsNonneg : AllocationItem → Type 0
IsNonneg i = pos 0 ≤ℤ i.amount

abbrev pub IsPositive : AllocationItem → Type 0
IsPositive i = is_positive i ≡ true

pub balance-append :
    (d : Destination) (xs ys : List AllocationItem)
    → balance d (xs ++ ys) ≡ balance d xs +ℤ balance d ys
unfolding balance
balance-append d [] ys = omega int_laws
balance-append d (i ∷ is) ys = rw (balance-append d is ys) (omega int_laws)

-- Dropping the items that are not positive moves no balance where none is negative.
balance-filter :
    (d : Destination) (xs : List AllocationItem)
    → All IsNonneg xs
    → balance d (filter is_positive xs) ≡ balance d xs
unfolding balance
balance-filter d [] h = refl
balance-filter d (i ∷ is) h = grind (int_laws, balance-filter d is h.1)

pub All-filter : (xs : List AllocationItem) → All IsPositive (filter is_positive xs)
All-filter [] = tt
All-filter (i ∷ is) = elim (Bool-cases (is_positive i)) [
  | inl p ↦ rw p (p, All-filter is)
  | inr p ↦ rw p (All-filter is)
]

-- The first item of the destination pays, and can.
pub data Debits (t : AllocationItem) : List AllocationItem → List AllocationItem → Type 0 where
  here :
      {i : AllocationItem} {is : List AllocationItem}
      → i.destination ≡ t.destination
      → t.amount ≤ℤ i.amount
      → Debits t (i ∷ is) (record i { amount = i.amount -ℤ t.amount } ∷ is)
  there :
      {i : AllocationItem} {is js : List AllocationItem}
      → i.destination ≢ t.destination
      → Debits t is js
      → Debits t (i ∷ is) (i ∷ js)

pub debit-Debits :
    (is : List AllocationItem) (t : AllocationItem) {js : List AllocationItem}
    → debit is t ≡ ok js
    → Debits t is js
unfolding debit
debit-Debits [] t h = absurd (cc)
debit-Debits (i ∷ is) t {js} h = elim (Bool-cases (i.destination == t.destination)) [
  | inl same ↦ elim (Bool-cases (ltb_ℤ (i.amount -ℤ t.amount) (pos 0))) [
    | inl short ↦ absurd (ground arith)
    | inr paid ↦
        let e : record i { amount = i.amount -ℤ t.amount } ∷ is ≡ js = ground arith in
        subst (Debits t (i ∷ is)) e
          (here (ground arith) (ground (arith, -ℤ_parts i.amount t.amount)))
  ]
  | inr other ↦
      let (ks, d, e) = >>=-eq-ok (debit is t) (λ ks. ok (i ∷ ks)) {b = js} (ground arith) in
      subst (Debits t (i ∷ is)) (ground arith) (there (ground arith) (debit-Debits is t d))
]

Debits-balance :
    (d : Destination) {t : AllocationItem} {is js : List AllocationItem}
    → Debits t is js
    → balance d is ≡ balance d js +ℤ (if t.destination == d then t.amount else pos 0)
unfolding balance
Debits-balance d {t} (here {i} {is} e p) = rw e (elim (Bool-cases (t.destination == d)) [
  | inl q ↦ rw q (omega int_laws)
  | inr q ↦ rw q (omega int_laws)
])
Debits-balance d (there e r) = rw (Debits-balance d r) (omega int_laws)

Debits-IsNonneg :
    {t : AllocationItem} {is js : List AllocationItem}
    → Debits t is js
    → All IsNonneg is
    → All IsNonneg js
Debits-IsNonneg (here e p) h = (omega int_laws, h.1)
Debits-IsNonneg (there e r) h = (h.0, Debits-IsNonneg r h.1)

-- What a run of deductions takes from each destination and adds to the total.
deduct-balance :
    (d : Destination) (is : List AllocationItem) (total : ℤ) (ts : List AllocationItem)
    {js : List AllocationItem} {total' : ℤ}
    → deduct is total ts ≡ ok (js, total')
    → (balance d is ≡ balance d js +ℤ balance d ts)
      × (total' ≡ total +ℤ sum (map (λ t. t.amount) ts))
unfolding deduct balance sum
deduct-balance d is total [] {js} {total'} h =
    let same : is ≡ js = cc in
    let total_same : total ≡ total' = cc in
    (rw same (omega int_laws), rw (← total_same) (omega int_laws))
deduct-balance d is total (t ∷ ts) {js} {total'} h =
    let (ks, e, r) =
      >>=-eq-ok (debit is t) (λ ks. deduct ks (total +ℤ t.amount) ts) {b = (js, total')} h in
    let (b, s) = deduct-balance d ks (total +ℤ t.amount) ts r in
    (rw (Debits-balance d (debit-Debits is t e), b) (omega int_laws), rw s (omega int_laws))

deduct-IsNonneg :
    (is : List AllocationItem) (total : ℤ) (ts : List AllocationItem) {js : List AllocationItem}
    {total' : ℤ}
    → deduct is total ts ≡ ok (js, total')
    → All IsNonneg is
    → All IsNonneg js
unfolding deduct
deduct-IsNonneg is total [] {js} {total'} h p =
    let same : is ≡ js = cc in subst (All IsNonneg) same p
deduct-IsNonneg is total (t ∷ ts) {js} {total'} h p =
    let (ks, e, r) =
      >>=-eq-ok (debit is t) (λ ks. deduct ks (total +ℤ t.amount) ts) {b = (js, total')} h in
    deduct-IsNonneg ks (total +ℤ t.amount) ts r (Debits-IsNonneg (debit-Debits is t e) p)

All-append-IsNonneg :
    (is js : List AllocationItem) → All IsNonneg is → All IsNonneg js → All IsNonneg (is ++ js)
All-append-IsNonneg [] js h k = k
All-append-IsNonneg (i ∷ is) js h k = (h.0, All-append-IsNonneg is js h.1 k)

-- The deductions that count: those of more than nothing.
abbrev pub requested : List AllocationItem → List AllocationItem
requested = filter is_positive

-- The sum of the deductions that count.
abbrev pub total_of : List AllocationItem → ℤ
total_of ts = sum (map (λ t. t.amount) ts)

pub sum-IsNonneg : (ts : List AllocationItem) → All IsPositive ts → pos 0 ≤ℤ total_of ts
unfolding sum
sum-IsNonneg [] h = omega arith
sum-IsNonneg (t ∷ ts) h = ground (arith, +ℤ_parts t.amount (total_of ts), sum-IsNonneg ts h.1)

settle-balance :
    (d target : Destination) (js : List AllocationItem) (total : ℤ)
    → All IsNonneg js
    → pos 0 ≤ℤ total
    → let target_item : AllocationItem = record { destination = target; amount = total } in
      balance d (filter is_positive (js ++ target_item ∷ []))
      ≡ balance d js +ℤ (if target == d then total else pos 0)
unfolding balance
settle-balance d target js total h k =
    let target_item : AllocationItem = record { destination = target; amount = total } in
    rw
      (
        balance-filter d (js ++ target_item ∷ [])
            (All-append-IsNonneg js (target_item ∷ []) h (k, tt)),
        balance-append d js (target_item ∷ []),
      )
      (omega int_laws)

-- Where no item of a simple allocation is negative, a payment that goes through takes from each
-- destination what the positive deductions name for it, and gives their sum to the target; the asset
-- is kept and only positive items are left.
pub allocate_to_target-balance :
    (current : SimpleAllocation) (ts : List AllocationItem) (target d : Destination)
    {o : SimpleAllocation}
    → All IsNonneg current.allocation_items
    → allocate_to_target (simple_allocation current) ts target ≡ ok o
    → (balance d o.allocation_items +ℤ balance d (requested ts)
        ≡ balance d current.allocation_items
          +ℤ (if target == d then total_of (requested ts) else pos 0))
      × (o.asset ≡ current.asset)
      × All IsPositive o.allocation_items
unfolding allocate_to_target
allocate_to_target-balance current ts target d {o} h e =
    let (done, ran, made) =
      >>=-eq-ok (deduct current.allocation_items (pos 0) (requested ts)) (paid current target) e in
    let (spent, counted) =
      deduct-balance d current.allocation_items (pos 0) (requested ts) {js = done.0}
        {total' = done.1} ran in
    let total : done.1 ≡ total_of (requested ts) = rw counted (omega int_laws) in
    let left =
      deduct-IsNonneg current.allocation_items (pos 0) (requested ts) {js = done.0}
        {total' = done.1} ran h in
    let settled =
      settle-balance d target done.0 done.1 left
        (rw total (sum-IsNonneg (requested ts) (All-filter ts))) in
    let target_item : AllocationItem = record { destination = target; amount = done.1 } in
    let items : filter is_positive (done.0 ++ target_item ∷ []) ≡ o.allocation_items =
      ground arith in
    let asset : o.asset ≡ current.asset = ground arith in
    (
      rw (← items, settled, spent, total) (omega int_laws),
      asset,
      subst (All IsPositive) items (All-filter (done.0 ++ target_item ∷ [])),
    )
