-- ===== src/Server/LedgerState/Determined.antt =====
-- packages/server-wallet/src/protocols/ledger-protocol.ts: which signatures put a ledger in which of
-- the three states that its comment names.
use statechannels.Common.{
  ◌≡◌, refl, ap, ◌∙◌, arith, true, false, Option, none, some, ◌&&◌, Bool-cases, ◌⊎◌, inl, inr,
}
use statechannels.WalletCore.Types.{SignedState}
use statechannels.Server.LedgerState.{
  Ledger, LedgerState, agreement, proposal, counter_proposal, violation, fully_signed,
  signed_by_index, state_back, determine_counter_proposal, determine_proposal, determine_from,
  determine_ledger_state,
}

-- The latest states of a ledger and their signatures, as the comment of the protocol has them.
abbrev pub Reads : Ledger → LedgerState → Type 0
Reads l (agreement agreed) = (state_back l 0 ≡ some agreed) × (fully_signed agreed ≡ true)
Reads l (proposal agreed proposed) =
    (state_back l 0 ≡ some proposed)
    × (state_back l 1 ≡ some agreed)
    × (fully_signed proposed ≡ false)
    × (fully_signed agreed ≡ true)
    × (signed_by_index l 0 proposed ≡ true)
Reads l (counter_proposal agreed proposed counter_proposed) =
    (state_back l 0 ≡ some counter_proposed)
    × (state_back l 1 ≡ some proposed)
    × (state_back l 2 ≡ some agreed)
    × (fully_signed counter_proposed ≡ false)
    × (fully_signed proposed ≡ false)
    × (fully_signed agreed ≡ true)
    × (signed_by_index l 0 proposed ≡ true)
    × (signed_by_index l 1 counter_proposed ≡ true)
Reads l violation = true ≡ false

determines : (l : Ledger) (s : LedgerState) → Reads l s → determine_ledger_state l ≡ s
unfolding determine_ledger_state
determines l (agreement a) (latest, full) = ap (determine_from l) latest ∙ rw full refl
determines l (proposal a p) (latest, before, open_, full, lead) =
    ap (determine_from l) latest
    ∙ rw open_ (ap (determine_proposal l p) before ∙ rw (full, lead) refl)
determines l (counter_proposal a p c) (latest, before, first, open_c, open_p, full, lead, follow) =
    ap (determine_from l) latest
    ∙ rw open_c (
        ap (determine_proposal l c) before
        ∙ rw open_p (ap (determine_counter_proposal l p c) first ∙ rw (full, lead, follow) refl))
determines l violation impossible = absurd (cc)

abbrev Known : Ledger → LedgerState → Type 0
Known l s = (s ≡ violation) ⊎ Reads l s

counter_proposal-Known :
    (l : Ledger) (p c : SignedState) (first : Option SignedState)
    → state_back l 0 ≡ some c
    → state_back l 1 ≡ some p
    → state_back l 2 ≡ first
    → fully_signed c ≡ false
    → fully_signed p ≡ false
    → Known l (determine_counter_proposal l p c first)
counter_proposal-Known l p c none latest before first open_c open_p = inl refl
counter_proposal-Known l p c (some a) latest before first open_c open_p =
    elim (Bool-cases (fully_signed a && (signed_by_index l 0 p && signed_by_index l 1 c))) [
      | inr unsigned ↦ rw unsigned (inl refl)
      | inl signed ↦
          rw signed
            (inr (latest, before, first, open_c, open_p, ground arith, ground arith, ground arith))
    ]

proposal-Known :
    (l : Ledger) (latest : SignedState) (before : Option SignedState)
    → state_back l 0 ≡ some latest
    → state_back l 1 ≡ before
    → fully_signed latest ≡ false
    → Known l (determine_proposal l latest before)
proposal-Known l c none latest before open_c = inl refl
proposal-Known l c (some p) latest before open_c = elim (Bool-cases (fully_signed p)) [
  | inr open_p ↦
      rw open_p (counter_proposal-Known l p c (state_back l 2) latest before refl open_c open_p)
  | inl full ↦ elim (Bool-cases (signed_by_index l 0 c)) [
    | inr unsigned ↦ rw (full, unsigned) (inl refl)
    | inl lead ↦ rw (full, lead) (inr (latest, before, open_c, full, lead))
  ]
]

latest-Known :
    (l : Ledger) (latest : Option SignedState)
    → state_back l 0 ≡ latest
    → Known l (determine_from l latest)
latest-Known l none latest = inl refl
latest-Known l (some c) latest = elim (Bool-cases (fully_signed c)) [
  | inl full ↦ rw full (inr (latest, full))
  | inr open_c ↦ rw open_c (proposal-Known l c (state_back l 1) latest refl open_c)
]

-- A ledger is in agreement, proposal or counter-proposal exactly when its latest one, two or three
-- states are signed as the protocol says: by all; by all, then by the leader; by all, then by the
-- leader, then by the follower, the later ones not by all. In every other case it is a violation.
pub determine_ledger_state-Reads :
    (l : Ledger)
    → ((s : LedgerState) → Reads l s → determine_ledger_state l ≡ s)
      × ((determine_ledger_state l ≡ violation) ⊎ Reads l (determine_ledger_state l))
unfolding determine_ledger_state
determine_ledger_state-Reads l = (determines l, latest-Known l (state_back l 0) refl)
