-- ===== src/WalletCore/Outcome/Refusals.antt =====
-- `allocateToTarget` of packages/wallet-core/src/utils/outcome.ts: when it pays, and when it throws.
use statechannels.Common.{
  ◌≡◌, refl, ◌≢◌, false, Option, none, some, List, [], ◌∷◌, ◌==◌, if◌then◌else◌, All, filter, ◌++◌,
  arith, Bool-cases, inl, inr, dec_le, ℕ_discrete, suc, sym, ◌∙◌,
}
use statechannels.Common.Int.{
  ℤ, pos_part, neg_part, pos, ◌+ℤ◌, ◌-ℤ◌, ◌≤ℤ◌, +ℤ_parts, -ℤ_parts, int_laws,
}
use statechannels.Common.Results.{ok, >>=-eq-ok}
use statechannels.WalletCore.Types.{
  Destination, AllocationItem, SimpleAllocation, simple_allocation,
}
use statechannels.WalletCore.Outcome.{is_positive, debit, deduct, paid, allocate_to_target}
use statechannels.WalletCore.Outcome.Allocate.{
  balance, IsPositive, Debits, debit-Debits, All-filter, requested,
}

-- The amount of the first item of a destination, which is the one that pays.
unfoldable pub held : Destination → List AllocationItem → Option ℤ
held d [] = none
held d (i ∷ is) = if i.destination == d then some i.amount else held d is

-- Of every destination of which something is asked, the first item holds what is asked in all.
abbrev pub Covers : List AllocationItem → List AllocationItem → Type 0
Covers is ts =
    (d : Destination) → pos 1 ≤ℤ balance d ts → (a : ℤ) × (held d is ≡ some a) × (balance d ts ≤ℤ a)

Debits-held_self :
    {t : AllocationItem} {is js : List AllocationItem}
    → Debits t is js
    → (a : ℤ) × (held t.destination is ≡ some a)
      × (t.amount ≤ℤ a)
      × (held t.destination js ≡ some (a -ℤ t.amount))
unfolding held
Debits-held_self (Debits.here {i} e p) = (i.amount, ground arith, p, ground arith)
Debits-held_self (Debits.there e r) =
    let (a, h, p, k) = Debits-held_self r in (a, ground arith, p, ground arith)

Debits-held_ne :
    (d : Destination) {t : AllocationItem} {is js : List AllocationItem}
    → Debits t is js
    → t.destination ≢ d
    → held d js ≡ held d is
unfolding held
Debits-held_ne d (Debits.here {i} e p) h = ground arith
Debits-held_ne d (Debits.there e r) h = ground (arith, Debits-held_ne d r h)

balance-IsNonneg :
    (d : Destination) (ts : List AllocationItem) → All IsPositive ts → pos 0 ≤ℤ balance d ts
unfolding balance
balance-IsNonneg d [] h = omega arith
balance-IsNonneg d (t ∷ ts) h = elim (Bool-cases (t.destination == d)) [
  | inl same ↦ rw same (ground (arith, +ℤ_parts t.amount (balance d ts), balance-IsNonneg d ts h.1))
  | inr other ↦
      rw other (ground (arith, +ℤ_parts (pos 0) (balance d ts), balance-IsNonneg d ts h.1))
]

debit_pays :
    (is : List AllocationItem) (t : AllocationItem) {a : ℤ}
    → held t.destination is ≡ some a
    → t.amount ≤ℤ a
    → (js : List AllocationItem) × (debit is t ≡ ok js)
unfolding held debit
debit_pays [] t h p = absurd (cc)
debit_pays (i ∷ is) t {a} h p = elim (Bool-cases (i.destination == t.destination)) [
  | inl same ↦
      let e : i.amount ≡ a = ground arith in
      (
        record i { amount = i.amount -ℤ t.amount } ∷ is,
        rw same (ground (arith, -ℤ_parts i.amount t.amount)),
      )
  | inr other ↦ let (js, e) = debit_pays is t {a = a} (ground arith) p in (i ∷ js, rw (other, e))
]

balance-cons_self :
    (d : Destination) (t : AllocationItem) (ts : List AllocationItem)
    → t.destination ≡ d
    → balance d (t ∷ ts) ≡ t.amount +ℤ balance d ts
unfolding balance
balance-cons_self d t ts e = ground arith

balance-cons_ne :
    (d : Destination) (t : AllocationItem) (ts : List AllocationItem)
    → t.destination ≢ d
    → balance d (t ∷ ts) ≡ balance d ts
unfolding balance
balance-cons_ne d t ts e =
    let miss : (t.destination == d) ≡ false = ground arith in rw miss (omega int_laws)

-- One step of `deduct-Covers`, at the destination that pays.
covers_self :
    (is js : List AllocationItem) (t : AllocationItem) (ts : List AllocationItem) (d : Destination)
    → All IsPositive (t ∷ ts)
    → t.destination ≡ d
    → (a : ℤ) × (held t.destination is ≡ some a)
      × (t.amount ≤ℤ a)
      × (held t.destination js ≡ some (a -ℤ t.amount))
    → (pos 1 ≤ℤ balance d ts → (a : ℤ) × (held d js ≡ some a) × (balance d ts ≤ℤ a))
    → (a : ℤ) × (held d is ≡ some a) × (balance d (t ∷ ts) ≤ℤ a)
covers_self is js t ts d h same (a, k, le, k') later = rw (balance-cons_self d t ts same) (
  a,
  rw (← same) k,
  elim (dec_le (suc (neg_part (balance d ts))) (pos_part (balance d ts))) [
    | yes more ↦
        let (x, hx, lx) = later (omega arith) in
        let kd : held d js ≡ some (a -ℤ t.amount) = rw same at k' in
        let e : x ≡ a -ℤ t.amount = cc in
        let le_x : balance d ts ≤ℤ a -ℤ t.amount = rw e at lx in omega int_laws
    | no none_left ↦ omega int_laws
  ],
)

deduct-Covers :
    (is : List AllocationItem) (total : ℤ) (ts : List AllocationItem)
    {done : List AllocationItem × ℤ}
    → All IsPositive ts
    → deduct is total ts ≡ ok done
    → Covers is ts
unfolding deduct
deduct-Covers is total [] h e d p = absurd (unfold balance in omega arith)
deduct-Covers is total (t ∷ ts) {done} h e d p =
    let (js, paid, rest) =
      >>=-eq-ok (debit is t) (λ ks. deduct ks (total +ℤ t.amount) ts) {b = done} e in
    let r = debit-Debits is t paid in
    let later = deduct-Covers js (total +ℤ t.amount) ts h.1 rest d in
    elim (ℕ_discrete t.destination d) [
      | yes same ↦ covers_self is js t ts d h same (Debits-held_self r) later
      | no other ↦
          let b = balance-cons_ne d t ts other in
          let (a, k, le) = later (rw b at p) in (a, sym (Debits-held_ne d r other) ∙ k, rw b le)
    ]

Covers-debit :
    (is js : List AllocationItem) (t : AllocationItem) (ts : List AllocationItem)
    → Debits t is js
    → Covers is (t ∷ ts)
    → pos 1 ≤ℤ t.amount
    → Covers js ts
Covers-debit is js t ts r c positive d p = elim (ℕ_discrete t.destination d) [
  | yes same ↦
      let b = balance-cons_self d t ts same in
      let (a, k, le) = c d (rw b (omega int_laws)) in
      let (x, hx, lx, kx) = Debits-held_self r in
      let kd : held d js ≡ some (x -ℤ t.amount) = rw same at kx in
      let hd : held d is ≡ some x = rw same at hx in
      let e : x ≡ a = cc in
      let le_a : t.amount +ℤ balance d ts ≤ℤ a = rw b at le in
      (a -ℤ t.amount, rw (← e) kd, omega int_laws)
  | no other ↦
      let b = balance-cons_ne d t ts other in
      let (a, k, le) = c d (rw b p) in (a, Debits-held_ne d r other ∙ k, rw b at le)
]

deduct_pays :
    (is : List AllocationItem) (total : ℤ) (ts : List AllocationItem)
    → All IsPositive ts
    → Covers is ts
    → (done : List AllocationItem × ℤ) × (deduct is total ts ≡ ok done)
unfolding deduct
deduct_pays is total [] h c = ((is, total), refl)
deduct_pays is total (t ∷ ts) h c =
    let b = balance-cons_self t.destination t ts refl in
    let rest = balance-IsNonneg t.destination ts h.1 in
    let positive : pos 1 ≤ℤ t.amount = ground (arith, h.0) in
    let (a, k, le) = c t.destination (rw b (omega int_laws)) in
    let le_b : t.amount +ℤ balance t.destination ts ≤ℤ a = rw b at le in
    let (js, paid) = debit_pays is t k (omega int_laws) in
    rw paid (
      deduct_pays js (total +ℤ t.amount) ts h.1
        (Covers-debit is js t ts (debit-Debits is t paid) c positive))

-- A simple allocation pays for the positive deductions exactly when, for every destination they
-- name, its first item holds their sum for that destination.
pub allocate_to_target_pays :
    (current : SimpleAllocation) (ts : List AllocationItem) (target : Destination)
    → (Covers current.allocation_items (requested ts)
        → (o : SimpleAllocation) × (allocate_to_target (simple_allocation current) ts target
            ≡ ok o))
      × ((o : SimpleAllocation)
          → allocate_to_target (simple_allocation current) ts target ≡ ok o
          → Covers current.allocation_items (requested ts))
unfolding allocate_to_target
allocate_to_target_pays current ts target = (
  λ c.
      let (done, e) =
        deduct_pays current.allocation_items (pos 0) (requested ts) (All-filter ts) c in
      (
        record current {
          allocation_items =
              filter is_positive (done.0 ++ record { destination = target; amount = done.1 } ∷ []);
        },
        rw e,
      ),
  λ o e.
      let (done, ran, made) =
        >>=-eq-ok (deduct current.allocation_items (pos 0) (requested ts)) (paid current target)
          e in
      deduct-Covers current.allocation_items (pos 0) (requested ts) (All-filter ts) ran,
)
