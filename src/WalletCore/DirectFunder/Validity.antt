-- ===== src/WalletCore/DirectFunder/Validity.antt =====
-- packages/wallet-core/src/protocols/direct-funder.ts: what a valid objective is, and the merging
-- of signatures in it.
use statechannels.Common.{
  ℕ, zero, suc, ◌≡◌, true, some, none, List, [], ◌∷◌, ◌==◌, get_elem?, find, includes, arith,
  Bool-cases, inl, inr,
}
use statechannels.Common.Counting.{IsSubset}
use statechannels.Common.Results.{ok}
use statechannels.WalletCore.Types.{Participant, State, SignatureEntry}
use statechannels.WalletCore.DirectFunder.{
  Steps, pre_fund_setup, post_fund_setup, FundingMilestone, Objective, signers, funding_milestone,
  merge_signatures, setup, set_signatures,
}
use statechannels.WalletCore.DirectFunder.Cranker.{addresses, by_outsider}
use statechannels.WalletCore.DirectFunder.Signatures.{IsAscending, merge_signatures-signers}

-- The signatures of a setup state are those of participants, one each, in order.
pub record SignedBy (ps : List Participant) (es : List SignatureEntry) : Type 0 where
  pub ascending : IsAscending (signers es)
  pub participants : IsSubset (signers es) (addresses ps)

-- I am a participant, to whom the outcome allocates, and the setups are signed by participants.
pub record Valid (opening : State) (my_index : ℕ) (pre post : List SignatureEntry) : Type 0 where
  pub me : Participant
  pub at_my_index : get_elem? opening.participants my_index ≡ some me
  pub milestone : FundingMilestone
  pub has_milestone : funding_milestone opening me.destination ≡ ok milestone
  pub pre_signed : SignedBy opening.participants pre
  pub post_signed : SignedBy opening.participants post

abbrev pub IsValid : Objective → Type 0
IsValid o = Valid o.opening_state o.my_index o.pre_fund.signatures o.post_fund.signatures

pub merge-SignedBy :
    (ps : List Participant) (left right : List SignatureEntry)
    → SignedBy ps left
    → IsSubset (signers right) (addresses ps)
    → SignedBy ps (merge_signatures left right)
merge-SignedBy ps left right h k =
    let (asc, both) = merge_signatures-signers left right in
    record {
      ascending = asc;
      participants = λ a e. elim (Bool-cases (includes a (signers left))) [
        | inl l ↦ h.participants a l
        | inr r ↦ k a (ground (arith, both a))
      ];
    }

set_signatures-IsValid :
    (o : Objective) (step : Steps) (es : List SignatureEntry)
    → IsValid o
    → SignedBy o.opening_state.participants es
    → IsValid (set_signatures o step es)
set_signatures-IsValid o pre_fund_setup es v h = record {
  me = v.me;
  at_my_index = v.at_my_index;
  milestone = v.milestone;
  has_milestone = v.has_milestone;
  pre_signed = h;
  post_signed = v.post_signed;
}
set_signatures-IsValid o post_fund_setup es v h = record {
  me = v.me;
  at_my_index = v.at_my_index;
  milestone = v.milestone;
  has_milestone = v.has_milestone;
  pre_signed = v.pre_signed;
  post_signed = h;
}

setup-SignedBy :
    (o : Objective) (step : Steps)
    → IsValid o
    → SignedBy o.opening_state.participants (setup o step).signatures
setup-SignedBy o pre_fund_setup v = v.pre_signed
setup-SignedBy o post_fund_setup v = v.post_signed

pub participant-includes :
    (ps : List Participant) (i : ℕ) {p : Participant}
    → get_elem? ps i ≡ some p
    → includes p.signing_address (addresses ps) ≡ true
participant-includes [] i e = absurd (cc)
participant-includes (q ∷ ps) zero e = ground arith
participant-includes (q ∷ ps) (suc i) e = ground (arith, participant-includes ps i e)

pub no_outsider :
    (o : Objective) (es : List SignatureEntry)
    → find (by_outsider o) es ≡ none
    → IsSubset (signers es) (addresses o.opening_state.participants)
no_outsider o [] h a e = absurd (cc)
no_outsider o (s ∷ es) h a e = elim (Bool-cases (s.signer == a)) [
  | inl here ↦ ground arith
  | inr later ↦ no_outsider o es (ground arith) a (ground arith)
]

pub merge-IsValid :
    (o : Objective) (step : Steps) (es : List SignatureEntry)
    → IsValid o
    → IsSubset (signers es) (addresses o.opening_state.participants)
    → IsValid (set_signatures o step (merge_signatures (setup o step).signatures es))
merge-IsValid o step es v h = set_signatures-IsValid o step _ v (
    merge-SignedBy o.opening_state.participants (setup o step).signatures es
      (setup-SignedBy o step v) h)
