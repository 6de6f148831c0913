-- ===== src/Nitro/Transition/Histories.antt =====
-- packages/nitro-protocol/src/valid-transition.ts: the states that a channel reaches by valid transitions.
use statechannels.Common.{
  ℕ, suc, ◌*◌, ◌≤◌, ◌<◌, ◌≡◌, refl, ap, ap₂, ◌∙◌, Bool, true, false, not, List, [], ◌∷◌, ◌==◌,
  length, Bool-cases, inl, inr, arith,
}
use statechannels.Common.Results.{Result, ok, ◌>>◌, >>=-eq-ok}
use statechannels.Nitro.Transition.{
  NitroState, ValidTransitionStatus, is_true, same_addresses, require,
  require_extra_implicit_checks, require_not_final, require_valid_protocol_transition,
}

pub same_addresses→eq : (xs ys : List ℕ) → same_addresses xs ys ≡ true → xs ≡ ys
same_addresses→eq [] [] h = refl
same_addresses→eq [] (y ∷ ys) h = absurd (cc)
same_addresses→eq (x ∷ xs) [] h = absurd (cc)
same_addresses→eq (x ∷ xs) (y ∷ ys) h =
    ap₂ ◌∷◌ (ground arith) (same_addresses→eq xs ys (ground arith))

require-ok :
    {A : Type 0} (b : Bool) (m : Result A) {a : A}
    → (require b >> m) ≡ ok a
    → (b ≡ true) × (m ≡ ok a)
require-ok true m e = (refl, e)
require-ok false m e = absurd (cc)

-- A history of a channel from a state on
pub data Reaches {O : Type 0} (is_equal : O → O → Bool) (s : NitroState O)
    : NitroState O → Type 0 where
  starts : Reaches is_equal s s
  follows :
      {t u : NitroState O} {v : ValidTransitionStatus}
      → Reaches is_equal s t
      → require_valid_protocol_transition is_equal t u ≡ ok v
      → Reaches is_equal s u

-- Two states of one channel, under one application
abbrev pub SameChannel : {O : Type 0} → NitroState O → NitroState O → Type 0
SameChannel s t =
    (t.chain_id ≡ s.chain_id)
    × (t.participants ≡ s.participants)
    × (t.channel_nonce ≡ s.channel_nonce)
    × (t.app_definition ≡ s.app_definition)
    × (t.challenge_duration ≡ s.challenge_duration)

-- The turns of the setup: two for each participant
abbrev pub InSetup : {O : Type 0} → NitroState O → Type 0
InSetup s = s.turn_num < 2 * length s.participants

require-last : (b : Bool) {a : Unit {0}} → require b ≡ ok a → b ≡ true
require-last true e = refl
require-last false e = absurd (cc)

require_extra-SameChannel :
    {O : Type 0} (t u : NitroState O) {a : Unit {0}}
    → require_extra_implicit_checks t u ≡ ok a
    → (u.turn_num ≡ suc t.turn_num) × SameChannel t u
unfolding require_extra_implicit_checks
require_extra-SameChannel t u {a} e =
    let (turn, e1) = require-ok (u.turn_num == suc t.turn_num) _ {a = a} e in
    let (chain, e2) = require-ok (u.chain_id == t.chain_id) _ {a = a} e1 in
    let (participants, e3) =
      require-ok (same_addresses u.participants t.participants) _ {a = a} e2 in
    let (nonce, e4) = require-ok (u.channel_nonce == t.channel_nonce) _ {a = a} e3 in
    let (app, e5) = require-ok (u.app_definition == t.app_definition) _ {a = a} e4 in
    let duration = require-last (u.challenge_duration == t.challenge_duration) {a = a} e5 in
    (
      ground arith,
      (
        ground arith,
        same_addresses→eq u.participants t.participants participants,
        ground arith,
        ground arith,
        ground arith,
      ),
    )

-- What a transition forbids besides
abbrev Frozen : {O : Type 0} → NitroState O → NitroState O → Type 0
Frozen s t =
    (s.is_final ≡ true → t.is_final ≡ true)
    × (t.is_final ≡ true → t.outcome ≡ s.outcome)
    × (InSetup t → t.outcome ≡ s.outcome)

SameChannel-trans :
    {O : Type 0} (s t u : NitroState O) → SameChannel s t → SameChannel t u → SameChannel s u
SameChannel-trans s t u (a, b, c, d, e) (a', b', c', d', e') =
    (a' ∙ a, b' ∙ b, c' ∙ c, d' ∙ d, e' ∙ e)

InSetup-before :
    {O : Type 0} (t u : NitroState O)
    → u.turn_num ≡ suc t.turn_num
    → SameChannel t u
    → InSetup u
    → InSetup t
InSetup-before t u turn (chain, participants, nonce, app, duration) early =
    let lengths = ap length participants in omega arith

module _ {O : Type 0} (is_equal : O → O → Bool)
    (is_equal→eq : (a b : O) → is_equal a b ≡ true → a ≡ b) where
  transition-Frozen :
      (t u : NitroState O) {v : ValidTransitionStatus}
      → require_valid_protocol_transition is_equal t u ≡ ok v
      → (u.turn_num ≡ suc t.turn_num) × SameChannel t u × Frozen t u
  unfolding require_valid_protocol_transition
  transition-Frozen t u {v} e =
      let (passed, checked, e1) = >>=-eq-ok (require_extra_implicit_checks t u) _ {b = v} e in
      let (turn, same) = require_extra-SameChannel t u checked in
      (
        turn,
        same,
        elim (Bool-cases u.is_final) [
          | inl final ↦
              let (equal, e2) =
                require-ok (is_equal u.outcome t.outcome) (ok is_true) {a = v} (ground arith) in
              let q = is_equal→eq u.outcome t.outcome equal in (λ h. final, λ h. q, λ h. q)
          | inr open_ ↦
              let e2 : require_not_final is_equal t u ≡ ok v = ground arith in
              let (not_final, e3) = require-ok (not t.is_final) _ {a = v} e2 in
              (
                λ h. absurd (ground arith),
                λ h. absurd (cc),
                λ early.
                    let (equal, e4) =
                      require-ok (is_equal u.outcome t.outcome)
                        (require (u.app_data == t.app_data) >> ok is_true) {a = v} (ground arith) in
                    is_equal→eq u.outcome t.outcome equal,
              )
        ],
      )

  -- Along valid transitions the turn does not go back, and the channel, its participants and its
  -- application stay what they are. After a final state there are only final states, with its outcome;
  -- and a state that is still in the setup has the outcome that the history began with. Here `isEqual`
  -- is taken to say `true` of equal outcomes only.
  pub history_is_kept :
      (s t : NitroState O)
      → Reaches is_equal s t
      → (s.turn_num ≤ t.turn_num)
        × SameChannel s t
        × (s.is_final ≡ true → (t.is_final ≡ true) × (t.outcome ≡ s.outcome))
        × (InSetup t → t.outcome ≡ s.outcome)
  history_is_kept s t starts =
      (omega arith, (refl, refl, refl, refl, refl), (λ h. (h, refl)), λ h. refl)
  history_is_kept s u (follows {t = t} r e) =
      let (le, same, final, setup) = history_is_kept s t r in
      let (turn, step, (stays, kept, early)) = transition-Frozen t u e in
      (
        omega arith,
        SameChannel-trans s t u same step,
        (λ h. (stays (final h).0, kept (stays (final h).0) ∙ (final h).1)),
        λ h. early h ∙ setup (InSetup-before t u turn step h),
      )
