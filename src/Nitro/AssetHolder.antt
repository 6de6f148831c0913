-- ===== src/Nitro/AssetHolder.antt =====
-- packages/nitro-protocol/src/contract/multi-asset-holder.ts: what a transfer out of a channel pays, as
-- the contract computes it. The loop's variables are a record that is passed on.
pub mod Transfer
pub mod Claim
use statechannels.Common.{
  ℕ, zero, suc, Bool, true, false, Option, none, some, List, [], ◌∷◌, ◌++◌, ◌||◌, ◌==◌,
  if◌then◌else◌, length, get_elem?, replicate,
}
use statechannels.Common.Int.{ℤ, pos, ◌+ℤ◌, ◌-ℤ◌, ltb_ℤ, eqb_ℤ}

-- `ExitFormat.Allocation`
pub record Allocation : Type 0 where
  pub destination : ℕ
  pub amount : ℤ
  pub metadata : ℕ
  pub allocation_type : ℕ

-- `min`
unfoldable pub min : ℤ → ℤ → ℤ
min a b = if ltb_ℤ b a then b else a

-- The variables of the loop; `next` is its `k`.
pub record Payout : Type 0 where
  pub new_allocations : List Allocation
  pub allocates_only_zeros : Bool
  pub exit_allocations : List Allocation
  pub total_payouts : ℤ
  pub surplus : ℤ
  pub next : ℕ

-- `exits[k] = a`, at an index of the array
unfoldable pub set_at : ℕ → Allocation → List Allocation → List Allocation
set_at k a [] = []
set_at zero a (x ∷ xs) = a ∷ xs
set_at (suc k) a (x ∷ xs) = x ∷ set_at k a xs

-- `indices.length == 0 || (k < indices.length && indices[k] === i)`
abbrev pub is_paid : List ℕ → ℕ → ℕ → Bool
is_paid [] k i = true
is_paid (x ∷ xs) k i = elim (get_elem? (x ∷ xs) k) [ none ↦ false | some j ↦ j == i ]

abbrev pub with_amount : ℤ → Allocation → Allocation
with_amount n a = record a { amount = n }

-- The body of the loop, for an allocation that is paid
abbrev pub pay : Allocation → Payout → Payout
pay a p =
    let affords = min a.amount p.surplus in
    let left = a.amount -ℤ affords in
    record {
      new_allocations = p.new_allocations ++ with_amount left a ∷ [];
      allocates_only_zeros = if eqb_ℤ left (pos 0) then p.allocates_only_zeros else false;
      exit_allocations = set_at p.next (with_amount affords a) p.exit_allocations;
      total_payouts = p.total_payouts +ℤ affords;
      surplus = p.surplus -ℤ affords;
      next = suc p.next;
    }

-- The body of the loop, for an allocation that is passed over: its share of the surplus is set aside.
abbrev pub pass_over : Allocation → Payout → Payout
pass_over a p = record p {
  new_allocations = p.new_allocations ++ a ∷ [];
  allocates_only_zeros = if eqb_ℤ a.amount (pos 0) then p.allocates_only_zeros else false;
  surplus = p.surplus -ℤ min a.amount p.surplus;
}

-- The `if` of the body
abbrev pub iterate : Bool → Allocation → Payout → Payout
iterate true a p = pay a p
iterate false a p = pass_over a p

-- The loop from the index `i` on
unfoldable pub pay_from : List ℕ → ℕ → Payout → List Allocation → Payout
pay_from indices i p [] = p
pay_from indices i p (a ∷ as_) =
    pay_from indices (suc i) (iterate (is_paid indices p.next i) a p) as_

abbrev pub blank : Allocation
blank = record { destination = 0; amount = pos 0; metadata = 0; allocation_type = 0 }

abbrev pub exits_of : List ℕ → List Allocation → ℕ
exits_of [] allocations = length allocations
exits_of (i ∷ is) allocations = length (i ∷ is)

abbrev pub start : ℤ → List Allocation → List ℕ → Payout
start holdings allocations indices = record {
  new_allocations = [];
  allocates_only_zeros = true;
  exit_allocations = replicate (exits_of indices allocations) blank;
  total_payouts = pos 0;
  surplus = holdings;
  next = 0;
}

-- `computeTransferEffectsAndInteractions`
unfoldable pub compute_transfer : ℤ → List Allocation → List ℕ → Payout
compute_transfer holdings allocations indices =
    pay_from indices 0 (start holdings allocations indices) allocations
