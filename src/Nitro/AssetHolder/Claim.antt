-- ===== src/Nitro/AssetHolder/Claim.antt =====
-- `computeClaimEffectsAndInteractions` of packages/nitro-protocol/src/contract/multi-asset-holder.ts: what
-- a claim pays out of a target channel, from a source that guarantees it. The decoder of a guarantee's
-- metadata stands on ethers' ABI coder, and the number of the guarantee type is exit-format's.
pub mod Amounts
pub mod Conserved
use statechannels.Common.{
  ℕ, zero, suc, Bool, true, false, not, Option, none, some, List, [], ◌∷◌, ◌==◌, if◌then◌else◌,
  get_elem?, map,
}
use statechannels.Common.Int.{ℤ, pos, ◌+ℤ◌, ◌-ℤ◌, eqb_ℤ}
use statechannels.Common.Results.{
  Result, ok, err, ◌>>=◌, ◌>>◌, throw_if, or_throw, type_error, not_valid,
}
use statechannels.Nitro.AssetHolder.{Allocation, min, is_paid, with_amount}

-- The variables of the loops; `next` is their `k`, `surplus` is `targetSurplus`.
pub record Claim : Type 0 where
  pub new_source : List Allocation
  pub new_target : List Allocation
  pub exit_allocations : List Allocation
  pub total_payouts : ℤ
  pub surplus : ℤ
  pub next : ℕ

-- What is left of the holdings for the allocation at an index: those before it come first.
unfoldable pub surplus_for : ℕ → ℤ → List Allocation → ℤ
surplus_for zero s as_ = s
surplus_for (suc n) s [] = s
surplus_for (suc n) s (a ∷ as_) =
    let rest = surplus_for n (s -ℤ min a.amount s) as_ in if eqb_ℤ s (pos 0) then s else rest

-- The first allocation of a destination, with its index
abbrev pub search : ℕ → ℕ → List Allocation → Option (ℕ × Allocation)
search d i [] = none
search d i (a ∷ as_) = if d == a.destination then some (i, a) else search d (suc i) as_

-- `xs[k].amount = BN.add(xs[k].amount, n)`
unfoldable pub increase_at : ℕ → ℤ → List Allocation → List Allocation
increase_at k n [] = []
increase_at zero n (x ∷ xs) = with_amount (x.amount +ℤ n) x ∷ xs
increase_at (suc k) n (x ∷ xs) = x ∷ increase_at k n xs

-- `xs[k].amount = BN.sub(xs[k].amount, n)`
unfoldable pub decrease_at : ℕ → ℤ → List Allocation → List Allocation
decrease_at k n [] = []
decrease_at zero n (x ∷ xs) = with_amount (x.amount -ℤ n) x ∷ xs
decrease_at (suc k) n (x ∷ xs) = x ∷ decrease_at k n xs

-- The body of the inner loop where the destination is found, before its `break`. The surplus goes down
-- whether or not the allocation is paid.
abbrev pub claim_item : ℕ → Bool → ℕ → Allocation → Claim → Claim
claim_item index true i a c =
    let affords = min a.amount c.surplus in
    record {
      new_source = decrease_at index affords c.new_source;
      new_target = decrease_at i affords c.new_target;
      exit_allocations = increase_at i affords c.exit_allocations;
      total_payouts = c.total_payouts +ℤ affords;
      surplus = c.surplus -ℤ affords;
      next = suc c.next;
    }
claim_item index false i a c = record c { surplus = c.surplus -ℤ min a.amount c.surplus }

-- The inner loop
abbrev pub claim_found : List ℕ → ℕ → Option (ℕ × Allocation) → Claim → Claim
claim_found indices index none c = c
claim_found indices index (some (i, a)) c = claim_item index (is_paid indices c.next i) i a c

-- The outer loop, over the destinations of the guarantee. It ends when nothing is left.
unfoldable pub claim_for : List ℕ → ℕ → List ℕ → Claim → Claim
claim_for indices index [] c = c
claim_for indices index (d ∷ ds) c =
    let rest = claim_for indices index ds (claim_found indices index (search d 0 c.new_target) c) in
    if eqb_ℤ c.surplus (pos 0) then c else rest

-- The copies that the loops start from
abbrev pub start_claim : ℤ → List Allocation → List Allocation → Claim
start_claim surplus source target = record {
  new_source = source;
  new_target = target;
  exit_allocations = map (with_amount (pos 0)) target;
  total_payouts = pos 0;
  surplus = surplus;
  next = 0;
}

-- `computeClaimEffectsAndInteractions`
unfoldable pub compute_claim :
    (decode_guarantee : ℕ → List ℕ)
    → (guarantee : ℕ) → ℤ
    → List Allocation
    → List Allocation
    → ℕ
    → List ℕ
    → Result Claim
compute_claim decode_guarantee guarantee holdings source target index indices = do
  mine ← or_throw (get_elem? source index) type_error
  throw_if (not (mine.allocation_type == guarantee)) not_valid
  let surplus = min (surplus_for index holdings source) mine.amount
  ok (claim_for indices index (decode_guarantee mine.metadata) (start_claim surplus source target))
