-- ===== src/Server/EngineTests.antt =====
-- Messages of packages/server-wallet merged for two recipients, and the theorem at them.
use statechannels.Common.{
  ℕ, ◌≡◌, ◌⊎◌, refl, ap₂, true, false, none, some, List, [], ◌∷◌, ◌==◌, ◌&&◌, arith,
}
use statechannels.Common.Results.{ok, err, different_senders, type_error}
use statechannels.WalletCore.Types.{Participant}
use statechannels.Server.EngineResponse.{
  Contents, Message, uniq_with, insert_ordered, order_by, merge_outgoing, outbox, to_others,
  queue_letters, queue_state, queue_send_objective, queue_channel_request, state_letter,
}
use statechannels.Server.EngineResponse.Merging.{Merges, DifferentSenders}
use statechannels.Server.EngineResponse.Outbox.{outbox-Merges}

-- A state is its channel and turn, a request and an objective a channel.
abbrev kinds : Contents (ℕ × ℕ) ℕ ℕ
kinds = record {
  of_state = record {
    same = λ a b. a.0 == b.0 && a.1 == b.1;
    channel_of = λ a. a.0;
    turn_of = λ a. a.1;
  };
  of_request = record { same = λ a b. a == b; channel_of = λ a. a; turn_of = λ a. 0 };
  of_objective = record { same = λ a b. a == b; channel_of = λ a. 0; turn_of = λ a. 0 };
}

same_pair : (x y : ℕ × ℕ) → (x.0 == y.0 && x.1 == y.1) ≡ true → x ≡ y
same_pair (a, b) (c, d) e =
    let first : a ≡ c = ground arith in
    let second : b ≡ d = ground arith in ap₂ (λ i j. (i, j)) first second

abbrev people : List Participant
people =
    record { participant_id = 1; signing_address = 1; destination = 11 }
    ∷ record { participant_id = 2; signing_address = 2; destination = 12 }
    ∷ record { participant_id = 3; signing_address = 3; destination = 13 }
    ∷ []

abbrev letters : List (Message (ℕ × ℕ) ℕ ℕ)
letters =
    state_letter (7, 4) 1 2
    ∷ state_letter (9, 1) 1 2
    ∷ state_letter (7, 3) 1 3
    ∷ state_letter (7, 3) 1 2
    ∷ state_letter (7, 4) 1 2
    ∷ []

merges :
    outbox kinds letters
    ≡ ok (
        record {
          sender = 1;
          recipient = 2;
          states = some ((9, 1) ∷ (7, 3) ∷ (7, 4) ∷ []);
          asked = none;
          objectives = none;
        }
        ∷ state_letter (7, 3) 1 3
        ∷ [])
unfolding merge_outgoing uniq_with order_by insert_ordered
merges = refl

refuses_two_senders :
    outbox kinds (state_letter (7, 4) 1 2 ∷ state_letter (7, 4) 3 2 ∷ []) ≡ err different_senders
unfolding merge_outgoing
refuses_two_senders = refl

queues :
    (queue_state {S = ℕ × ℕ} {R = ℕ} {O = ℕ} (7, 4) 1 people [])
    ≡ ok (state_letter (7, 4) 2 1 ∷ state_letter (7, 4) 2 3 ∷ [])
unfolding queue_letters to_others
queues = refl

asks_no_one : queue_channel_request {S = ℕ} {R = ℕ} {O = ℕ} 7 3 people [] ≡ err type_error
unfolding queue_letters
asks_no_one = refl

keeps_to_itself : queue_send_objective {S = ℕ} {R = ℕ} {O = ℕ} false 7 0 people [] ≡ ok []
unfolding queue_send_objective
keeps_to_itself = refl

outbox-Merges_example :
    ((out : List (Message (ℕ × ℕ) ℕ ℕ)) × (outbox kinds letters ≡ ok out) × Merges letters out)
    ⊎ ((outbox kinds letters ≡ err different_senders) × DifferentSenders letters)
outbox-Merges_example =
    outbox-Merges kinds same_pair (λ x y e. ground arith) (λ x y e. ground arith) letters
