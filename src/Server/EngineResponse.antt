-- ===== src/Server/EngineResponse.antt =====
-- packages/server-wallet/src/engine/engine-response.ts: the messages that a call of the engine leaves for
-- the others, and how they are merged into one for each recipient. The states, requests and objectives of
-- a message are of any types, of which `Content` has what lodash reads of them; their serialisation is a
-- parameter. Ids are not among the keys that JavaScript sorts as array indices.
pub mod Values
pub mod Merging
pub mod Outbox
use statechannels.Common.{
  ℕ, suc, Bool, true, false, not, Option, none, some, List, [], ◌∷◌, ◌++◌, map, ◌&&◌, ◌||◌, ◌==◌,
  ltb, if◌then◌else◌, get_elem?, filter, any, all,
}
use statechannels.Common.Results.{
  Result, ok, ◌>>=◌, ◌>>◌, throw_if, or_throw, different_senders, type_error,
}
use statechannels.WalletCore.Types.{Participant}

-- `_.isEqual` of two values, and their `channelId` and `turnNum`, which are one number for all of a type
-- that lacks them
pub record Content (T : Type 0) : Type 0 where
  pub same : T → T → Bool
  pub channel_of : T → ℕ
  pub turn_of : T → ℕ

-- `_.uniqWith(array, _.isEqual)`, after those seen
unfoldable pub uniq_with : {T : Type 0} → (T → T → Bool) → List T → List T → List T
uniq_with same seen [] = []
uniq_with same seen (x ∷ xs) =
    let again = any (same x) seen in
    let rest = uniq_with same (if again then seen else x ∷ seen) xs in
    if again then rest else x ∷ rest

-- Does a value come before another: by `channelId` from the highest, then by `turnNum` from the lowest?
abbrev pub comes_before : {T : Type 0} → Content T → T → T → Bool
comes_before c a b =
    ltb (c.channel_of b) (c.channel_of a)
    || c.channel_of a == c.channel_of b && ltb (c.turn_of a) (c.turn_of b)

unfoldable pub insert_ordered : {T : Type 0} → Content T → T → List T → List T
insert_ordered c x [] = x ∷ []
insert_ordered c x (y ∷ ys) =
    let rest = insert_ordered c x ys in if comes_before c y x then y ∷ rest else x ∷ y ∷ ys

-- `_.orderBy(array, ['channelId', 'turnNum'], ['desc', 'asc'])`, which is stable
unfoldable pub order_by : {T : Type 0} → Content T → List T → List T
order_by c [] = []
order_by c (x ∷ xs) = insert_ordered c x (order_by c xs)

-- `uniqueAndSorted`
abbrev pub unique_and_sorted : {T : Type 0} → Content T → List T → List T
unique_and_sorted c xs = order_by c (uniq_with c.same [] xs)

-- `xs || []`
abbrev pub or_empty : {T : Type 0} → Option (List T) → List T
or_empty none = []
or_empty (some xs) = xs

-- `xs.length > 0 ? xs : undefined`
abbrev pub unless_empty : {T : Type 0} → List T → Option (List T)
unless_empty [] = none
unless_empty (x ∷ xs) = some (x ∷ xs)

-- `xs.flatMap(f)`
abbrev pub flat_map : {A T : Type 0} → (A → List T) → List A → List T
flat_map f [] = []
flat_map f (x ∷ xs) = f x ++ flat_map f xs

-- A `Message`, with its states, requests and objectives
pub record Message (S R O : Type 0) : Type 0 where
  pub sender : ℕ
  pub recipient : ℕ
  pub states : Option (List S)
  pub asked : Option (List R)
  pub objectives : Option (List O)

-- What the merge compares of the three
pub record Contents (S R O : Type 0) : Type 0 where
  pub of_state : Content S
  pub of_request : Content R
  pub of_objective : Content O

module _ {S R O : Type 0} where
  abbrev pub states_in : Message S R O → List S
  states_in m = or_empty m.states

  abbrev pub requests_in : Message S R O → List R
  requests_in m = or_empty m.asked

  abbrev pub objectives_in : Message S R O → List O
  objectives_in m = or_empty m.objectives

  abbrev pub sent_to : ℕ → Message S R O → Bool
  sent_to r m = m.recipient == r

  -- The keys of `_.groupBy(messages, o => o.recipient)`, in the order in which they come
  abbrev pub recipients : List (Message S R O) → List ℕ
  recipients ms = uniq_with (λ a b. a == b) [] (map (λ (m : Message S R O). m.recipient) ms)

  -- All of one kind that one recipient is sent
  abbrev pub part_sent : {T : Type 0} → (Message S R O → List T) → ℕ → List (Message S R O) → List T
  part_sent part r ms = flat_map part (filter (sent_to r) ms)

  abbrev pub merged : Contents S R O → ℕ → List (Message S R O) → ℕ → Message S R O
  merged c from ms r = record {
    sender = from;
    recipient = r;
    states = unless_empty (unique_and_sorted c.of_state (part_sent states_in r ms));
    asked = unless_empty (unique_and_sorted c.of_request (part_sent requests_in r ms));
    objectives = unless_empty (unique_and_sorted c.of_objective (part_sent objectives_in r ms));
  }

  -- `mergeOutgoing`
  unfoldable pub merge_outgoing :
      Contents S R O → List (Message S R O) → Result (List (Message S R O))
  merge_outgoing c [] = ok []
  merge_outgoing c (m ∷ ms) = do
    throw_if (not (all (λ (n : Message S R O). n.sender == m.sender) ms)) different_senders
    ok (map (merged c m.sender (m ∷ ms)) (recipients (m ∷ ms)))

  -- `allMessages`
  abbrev pub all_messages : Contents S R O → List (Message S R O) → Result (List (Message S R O))
  all_messages c messages = merge_outgoing c messages

  -- `outbox`
  abbrev pub outbox : Contents S R O → List (Message S R O) → Result (List (Message S R O))
  outbox c messages = all_messages c messages >>= merge_outgoing c

  -- `participants.forEach((p, i) => { if (i !== myIndex) … })`, from the index of the first
  unfoldable pub to_others : (ℕ → Message S R O) → ℕ → ℕ → List Participant → List (Message S R O)
  to_others letter my_index i [] = []
  to_others letter my_index i (p ∷ ps) =
      let rest = to_others letter my_index (suc i) ps in
      if i == my_index then rest else letter p.participant_id ∷ rest

  -- The messages of one of the participants to the others, behind those that are queued
  unfoldable pub queue_letters :
      (ℕ → ℕ → Message S R O)
      → ℕ
      → List Participant
      → List (Message S R O)
      → Result (List (Message S R O))
  queue_letters letter my_index ps messages = do
    me ← or_throw (get_elem? ps my_index) type_error
    ok (messages ++ to_others (letter me.participant_id) my_index 0 ps)

  -- `serializeMessage` of one state, which gives no requests or objectives
  abbrev pub state_letter : S → ℕ → ℕ → Message S R O
  state_letter s from to = record {
    sender = from;
    recipient = to;
    states = some (s ∷ []);
    asked = none;
    objectives = none;
  }

  abbrev pub objective_letter : O → ℕ → ℕ → Message S R O
  objective_letter o from to = record {
    sender = from;
    recipient = to;
    states = some [];
    asked = none;
    objectives = some (o ∷ []);
  }

  abbrev pub request_letter : R → ℕ → ℕ → Message S R O
  request_letter q from to = record {
    sender = from;
    recipient = to;
    states = some [];
    asked = some (q ∷ []);
    objectives = none;
  }

  -- `queueState`, of the serialised state
  abbrev pub queue_state :
      S → ℕ → List Participant → List (Message S R O) → Result (List (Message S R O))
  queue_state s = queue_letters (state_letter s)

  -- `queueChannelRequest`
  abbrev pub queue_channel_request :
      R → ℕ → List Participant → List (Message S R O) → Result (List (Message S R O))
  queue_channel_request q = queue_letters (request_letter q)

  -- `queueSendObjective`, of an objective that is shared or not
  unfoldable pub queue_send_objective :
      Bool → O → ℕ → List Participant → List (Message S R O) → Result (List (Message S R O))
  queue_send_objective shared o my_index ps messages = do
    me ← or_throw (get_elem? ps my_index) type_error
    ok (
        if shared
        then messages ++ to_others (objective_letter o me.participant_id) my_index 0 ps
        else messages)
