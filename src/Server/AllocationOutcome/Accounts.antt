-- ===== src/Server/AllocationOutcome/Accounts.antt =====
-- packages/server-wallet/src/models/channel/outcome.ts: what the items hold for a set of destinations,
-- and how the charges and the refunds change it.
use statechannels.Common.{
  ◌≡◌, refl, sym, ap, subst, ◌∙◌, Bool, true, false, some, List, [], ◌∷◌, ◌++◌, map, ◌==◌,
  if◌then◌else◌, length, includes, All, arith, Bool-cases, Option-cases, inl, inr,
}
use statechannels.Common.Int.{ℤ, pos, ◌+ℤ◌, sum, foldl, foldl-add, int_laws}
use statechannels.Common.Results.{ok}
use statechannels.WalletCore.Types.{Destination, AllocationItem}
use statechannels.Server.AllocationOutcome.{
  item_for, zip, credit, charge, refund_all, charge_all, reduce_amounts, sources_suffice,
}

-- A set of destinations, by its test
abbrev pub Party : Type 0
Party = Destination → Bool

abbrev pub everyone : Party
everyone d = true

abbrev pub share : Party → Destination → ℤ → ℤ
share w d a = if w d then a else pos 0

-- What a list of items holds for a set of destinations.
unfoldable pub held_by : Party → List AllocationItem → ℤ
held_by w [] = pos 0
held_by w (i ∷ is) = share w i.destination i.amount +ℤ held_by w is

-- What a list of charges or refunds comes to for a set of destinations.
unfoldable pub owed_by : Party → List (Destination × ℤ) → ℤ
owed_by w [] = pos 0
owed_by w (da ∷ das) = share w da.0 da.1 +ℤ owed_by w das

abbrev pub dests : List AllocationItem → List Destination
dests = map λ i. i.destination

abbrev pub AllFound : List (Destination × ℤ) → List AllocationItem → Type 0
AllFound das is = All (λ da. includes da.0 (dests is) ≡ true) das

pub held_by-append :
    (w : Party) (xs ys : List AllocationItem) → held_by w (xs ++ ys) ≡ held_by w xs +ℤ held_by w ys
unfolding held_by
held_by-append w [] ys = omega int_laws
held_by-append w (i ∷ is) ys = rw (held_by-append w is ys) (omega int_laws)

pub charge-dests :
    (da : Destination × ℤ) (is : List AllocationItem) → dests (charge da is) ≡ dests is
unfolding charge
charge-dests da [] = refl
charge-dests da (i ∷ is) = elim (Bool-cases (i.destination == da.0)) [
  | inl e ↦ rw e
  | inr e ↦ rw (e, charge-dests da is)
]

pub credit-dests :
    (da : Destination × ℤ) (is : List AllocationItem) → dests (credit da is) ≡ dests is
unfolding credit
credit-dests da [] = refl
credit-dests da (i ∷ is) = elim (Bool-cases (i.destination == da.0)) [
  | inl e ↦ rw e
  | inr e ↦ rw (e, credit-dests da is)
]

charge-held :
    (w : Party) (da : Destination × ℤ) (is : List AllocationItem)
    → includes da.0 (dests is) ≡ true
    → held_by w is ≡ held_by w (charge da is) +ℤ share w da.0 da.1
unfolding charge held_by
charge-held w da [] h = absurd (cc)
charge-held w da (i ∷ is) h = elim (Bool-cases (i.destination == da.0)) [
  | inl e ↦
      let same : i.destination ≡ da.0 = ground arith in
      rw (e, same)
        (elim (Bool-cases (w da.0)) [
          | inl q ↦ rw q (omega int_laws)
          | inr q ↦ rw q (omega int_laws)
        ])
  | inr e ↦ rw (e, charge-held w da is (ground arith)) (omega int_laws)
]

credit-held :
    (w : Party) (da : Destination × ℤ) (is : List AllocationItem)
    → includes da.0 (dests is) ≡ true
    → held_by w (credit da is) ≡ held_by w is +ℤ share w da.0 da.1
unfolding credit held_by
credit-held w da [] h = absurd (cc)
credit-held w da (i ∷ is) h = elim (Bool-cases (i.destination == da.0)) [
  | inl e ↦
      let same : i.destination ≡ da.0 = ground arith in
      rw (e, same)
        (elim (Bool-cases (w da.0)) [
          | inl q ↦ rw q (omega int_laws)
          | inr q ↦ rw q (omega int_laws)
        ])
  | inr e ↦ rw (e, credit-held w da is (ground arith)) (omega int_laws)
]

pub charge_all-held :
    (w : Party) (das : List (Destination × ℤ)) (is : List AllocationItem)
    → AllFound das is
    → held_by w is ≡ held_by w (charge_all das is) +ℤ owed_by w das
unfolding charge_all owed_by
charge_all-held w [] is h = omega int_laws
charge_all-held w (da ∷ das) is h =
    let rest =
      charge_all-held w das (charge da is)
        (subst (λ ds. All (λ da. includes da.0 ds ≡ true) das) (sym (charge-dests da is)) h.1) in
    charge-held w da is h.0 ∙ rw rest (omega int_laws)

pub refund_all-held :
    (w : Party) (channel : Destination) (das : List (Destination × ℤ)) (is : List AllocationItem)
    → All (λ da. (da.0 == channel) ≡ false) das
    → AllFound das is
    → held_by w (refund_all channel das is) ≡ held_by w is +ℤ owed_by w das
unfolding refund_all owed_by
refund_all-held w channel [] is a h = omega int_laws
refund_all-held w channel (da ∷ das) is a h =
    let rest =
      refund_all-held w channel das (credit da is) a.1
        (subst (λ ds. All (λ da. includes da.0 ds ≡ true) das) (sym (credit-dests da is)) h.1) in
    rw a.0 (rw (rest, credit-held w da is h.0) (omega int_laws))

pub owed_by-zip :
    (ds : List Destination) (as_ : List ℤ)
    → length ds ≡ length as_
    → owed_by everyone (zip ds as_) ≡ sum as_
unfolding owed_by sum
owed_by-zip [] [] h = refl
owed_by-zip [] (a ∷ as_) h = absurd (omega arith)
owed_by-zip (d ∷ ds) [] h = absurd (omega arith)
owed_by-zip (d ∷ ds) (a ∷ as_) h = ap (λ t. a +ℤ t) (owed_by-zip ds as_ (omega arith))

pub reduce_amounts-sum :
    (as_ : List ℤ) {total : ℤ} → reduce_amounts as_ ≡ ok total → total ≡ sum as_
unfolding reduce_amounts sum
reduce_amounts-sum [] e = absurd (cc)
reduce_amounts-sum (a ∷ as_) {total} e =
    let q : foldl ◌+ℤ◌ a as_ ≡ total = cc in sym q ∙ foldl-add a as_

pub find-includes :
    (d : Destination) (is : List AllocationItem) {i : AllocationItem}
    → item_for d is ≡ some i
    → includes d (dests is) ≡ true
find-includes d [] e = absurd (cc)
find-includes d (x ∷ is) {i} e = elim (Bool-cases (x.destination == d)) [
  | inl q ↦ ground arith
  | inr q ↦ let rest = find-includes d is {i = i} (ground arith) in ground arith
]

pub sources_suffice-AllFound :
    (das : List (Destination × ℤ)) (is : List AllocationItem)
    → sources_suffice das is ≡ true
    → AllFound das is
unfolding sources_suffice
sources_suffice-AllFound [] is h = tt
sources_suffice-AllFound (da ∷ das) is h = elim (Option-cases (item_for da.0 is)) [
  | inl missing ↦ absurd (ground arith)
  | inr (i, found) ↦ (find-includes da.0 is found, sources_suffice-AllFound das is (ground arith))
]

pub AllFound-append :
    (das : List (Destination × ℤ)) (is js : List AllocationItem)
    → AllFound das is
    → AllFound das (is ++ js)
AllFound-append [] is js h = tt
AllFound-append (da ∷ das) is js h = (includes-append da.0 is js h.0, AllFound-append das is js h.1)
  where
    includes-append :
        (d : Destination) (is js : List AllocationItem)
        → includes d (dests is) ≡ true
        → includes d (dests (is ++ js)) ≡ true
    includes-append d [] js h = absurd (cc)
    includes-append d (i ∷ is) js h = ground (arith, includes-append d is js)
