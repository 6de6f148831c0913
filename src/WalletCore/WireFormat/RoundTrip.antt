-- ===== src/WalletCore/WireFormat/RoundTrip.antt =====
-- packages/wallet-core/src/serde/wire-format: what comes back from the wire.
use statechannels.Common.{ℕ, ◌≡◌, refl, sym, ◌<◌, Option, List, [], ◌∷◌, map, All}
use statechannels.Common.Int.{ℤ, pos}
use statechannels.Common.Results.{Result, ok, err, ◌>>=◌, empty_allocation}
use statechannels.WalletCore.Types.{
  Participant, AllocationItem, SimpleAllocation, Outcome, simple_allocation, mixed_allocation,
  simple_guarantee, State, SignatureEntry, SignedState,
}
use statechannels.WalletCore.WireFormat.{
  Ethers, WireItem, WireAsset, wire_allocation, wire_guarantee, WireState, each, serialize_item,
  serialize_allocation, serialize_outcome, serialize_state, make_destination, deserialize_item,
  deserialize_allocation, deserialize_allocations, deserialize_outcome,
  convert_to_internal_participant, recovered, wire_state, deserialize_state,
}

each-inverse :
    {A B : Type 0} (f : A → Result B) (g : B → Result A) (xs : List A)
    → All (λ x. (y : B) × (f x ≡ ok y) × (g y ≡ ok x)) xs
    → (ys : List B) × (each f xs ≡ ok ys) × (each g ys ≡ ok xs)
unfolding each
each-inverse f g [] h = ([], refl, refl)
each-inverse f g (x ∷ xs) ((y, there, back), hs) =
    let (ys, theres, backs) = each-inverse f g xs hs in
    (y ∷ ys, rw (there, theres) refl, rw (back, backs) refl)

pub each-fixed :
    {A : Type 0} (f : A → Result A) (xs : List A) → All (λ x. f x ≡ ok x) xs → each f xs ≡ ok xs
unfolding each
each-fixed f [] h = refl
each-fixed f (x ∷ xs) (h, hs) = rw (h, each-fixed f xs hs) refl

All-map :
    {A : Type 0} (P Q : A → Type 0) (xs : List A) → ((x : A) → P x → Q x) → All P xs → All Q xs
All-map P Q [] f h = tt
All-map P Q (x ∷ xs) f (h, hs) = (f x h, All-map P Q xs f hs)

abbrev pub uint256_bound : ℕ
uint256_bound = 115792089237316195423570985008687907853269984665640564039457584007913129639936

module _ (ethers : Ethers) where
  -- An amount, a destination and an address as the types of packages/wallet-core have them
  abbrev pub IsAmount : ℤ → Type 0
  IsAmount a = (n : ℕ) × (a ≡ pos n) × n < uint256_bound

  abbrev pub IsItem : AllocationItem → Type 0
  IsItem i = IsAmount i.amount × (make_destination ethers i.destination ≡ ok i.destination)

  abbrev pub IsAllocation : SimpleAllocation → Type 0
  IsAllocation a = (ethers.get_address a.asset ≡ ok a.asset) × All IsItem a.allocation_items

  abbrev pub IsOutcome : Outcome → Type 0
  IsOutcome (simple_allocation a) = IsAllocation a
  IsOutcome (mixed_allocation as_) = All IsAllocation as_
  IsOutcome (simple_guarantee g) = ethers.get_address g.asset ≡ ok g.asset

  abbrev pub IsParticipant : Participant → Type 0
  IsParticipant p =
      (ethers.get_address p.signing_address ≡ ok p.signing_address)
      × (make_destination ethers p.destination ≡ ok p.destination)

  abbrev pub IsState : State → Type 0
  IsState s =
      (ethers.get_address s.app_definition ≡ ok s.app_definition)
      × IsOutcome s.outcome
      × All IsParticipant s.participants

  -- What becomes of an outcome
  abbrev pub received : Outcome → Result Outcome
  received (simple_allocation a) = ok (simple_allocation a)
  received (mixed_allocation []) = err empty_allocation
  received (mixed_allocation (a ∷ [])) = ok (simple_allocation a)
  received (mixed_allocation (a ∷ b ∷ cs)) = ok (mixed_allocation (a ∷ b ∷ cs))
  received (simple_guarantee g) = ok (simple_guarantee g)

  -- The state with another outcome, and signers who are recovered from that
  abbrev pub with_outcome : SignedState → Outcome → SignedState
  with_outcome s o =
      let t : State = record s.state { vars = record s.vars { outcome = o } } in
      record {
        state = t;
        signatures = recovered ethers t (map (λ (e : SignatureEntry). e.signature) s.signatures);
      }

  module _
      (reads : (n : ℕ)
        → n < uint256_bound
        → (t : ℕ) × (ethers.hex_zero_pad (pos n) ≡ ok t) × (ethers.from_hex t ≡ ok (pos n))) where
    item_survives :
        (i : AllocationItem)
        → IsItem i
        → (w : WireItem) × (serialize_item ethers i ≡ ok w) × (deserialize_item ethers w ≡ ok i)
    unfolding serialize_item deserialize_item
    item_survives i ((n, is, small), dest) =
        let (t, there, back) = reads n small in
        (
          record { wire_destination = i.destination; wire_amount = t },
          rw (is, there) refl,
          rw (back, dest, sym is) refl,
        )

    allocation_survives :
        (a : SimpleAllocation)
        → IsAllocation a
        → (items : List WireItem) × (serialize_allocation ethers a
            ≡ ok (wire_allocation a.asset items))
          × (deserialize_allocation ethers (wire_allocation a.asset items) ≡ ok a)
    unfolding serialize_allocation deserialize_allocation
    allocation_survives a (asset, items) =
        let (ws, there, back) =
          each-inverse (serialize_item ethers) (deserialize_item ethers) a.allocation_items
            (All-map IsItem _ a.allocation_items item_survives items) in
        (ws, rw there refl, rw (asset, back) refl)

    outcome_received :
        (o : Outcome)
        → IsOutcome o
        → (w : List WireAsset) × (serialize_outcome ethers o ≡ ok w)
          × (deserialize_outcome ethers w ≡ received o)
    unfolding serialize_outcome deserialize_outcome deserialize_allocations each
    outcome_received (simple_allocation a) h =
        let (ws, there, back) = allocation_survives a h in
        (wire_allocation a.asset ws ∷ [], rw there refl, rw back refl)
    outcome_received (mixed_allocation []) h = ([], refl, refl)
    outcome_received (mixed_allocation (a ∷ [])) (h, hs) =
        let (ws, there, back) = allocation_survives a h in
        (wire_allocation a.asset ws ∷ [], rw there refl, rw back refl)
    outcome_received (mixed_allocation (a ∷ b ∷ cs)) (h, (k, ks)) =
        let (ws, there, back) = allocation_survives a h in
        let (vs, there_b, back_b) = allocation_survives b k in
        let (us, there_c, back_c) =
          each-inverse (serialize_allocation ethers) (deserialize_allocation ethers) cs (
            All-map IsAllocation _ cs
              (λ c is.
                let (xs, to, from) = allocation_survives c is in
                (wire_allocation c.asset xs, to, from))
              ks) in
        (
          wire_allocation a.asset ws ∷ wire_allocation b.asset vs ∷ us,
          rw (there, there_b, there_c) refl,
          rw (back, back_b, back_c) refl,
        )
    outcome_received (simple_guarantee g) h =
        (wire_guarantee g.asset g.target_channel_id g.destinations ∷ [], refl, rw h refl)

    participant_survives :
        (p : Participant) → IsParticipant p → convert_to_internal_participant ethers p ≡ ok p
    unfolding convert_to_internal_participant
    participant_survives p (signing, dest) = rw (signing, dest) refl

    -- A signed state that is sent arrives as it was, with the signers recovered from it; but a mixed
    -- allocation of one arrives as a simple one, and a state with a mixed allocation of nothing is sent and
    -- then refused. It is taken that its addresses are in the form that ethers gives them, that its amounts
    -- fit in 32 bytes, and that ethers reads back an amount that fits.
    pub deserialize_state-serialize_state :
        (id : Option ℕ) (s : SignedState)
        → IsState s.state
        → (w : WireState) × (serialize_state ethers id s ≡ ok w)
          × (deserialize_state ethers w ≡ (received s.outcome >>= λ o. ok (with_outcome s o)))
    unfolding serialize_state deserialize_state
    deserialize_state-serialize_state id s (app, outcome, people) =
        let (w, there, back) = outcome_received s.outcome outcome in
        let ps =
          each-fixed (convert_to_internal_participant ethers) s.participants
            (All-map IsParticipant _ s.participants participant_survives people) in
        (wire_state ethers id s w, rw there refl, rw (app, back, ps) refl)
