-- ===== src/Lib.antt =====
-- State channels: a wallet that opens, funds and updates channels, in TypeScript packages.
--
-- The parts, and how they interact. packages/wallet-core has the data (states, outcomes, signatures),
-- the operations on outcomes, and the protocol that opens a directly funded channel.
-- packages/server-wallet runs channels against a database: a ledger channel between two participants
-- holds the funds of further channels, which are added to its outcome and removed from it by requests.
-- An objective of a channel (opening, closing, defunding, a challenge) is cranked: a crank reads the rows
-- of the channel, signs states through the store, and queues what is sent to the others, to the chain and
-- to the application. packages/nitro-protocol and packages/browser-wallet are the contracts' client and
-- the wallet in a page.
--
-- The modules.
--   Common: the shared notation. Common/Int has the integers that `BN` computes with
--     (packages/wallet-core/src/bignumber.ts), Common/Results the errors that the code throws,
--     Common/Lists the array methods and lodash functions, Common/Counting lists without repetition.
--   WalletCore/Types: packages/wallet-core/src/types.ts.
--   WalletCore/Outcome: `allocateToTarget` of packages/wallet-core/src/utils/outcome.ts; its children
--     have the balances of a payment (Allocate) and which payments go through (Refusals).
--   WalletCore/DirectFunder: packages/wallet-core/src/protocols/direct-funder.ts, its data and
--     `initialize`; WalletCore/DirectFunder/Cranker is `openChannelCranker`. The record `Objective` is
--     `OpenChannelObjective`, whose `preFundSetup`, `postFundSetup` are `pre_fund`, `post_fund`; the
--     cloned and mutated objective is passed on as a value together with the actions pushed so far.
--     Signatures and Milestones have the merge and the deposits, Cases the branches of the cranker, Validity
--     and Invariant what holds of every objective, Safety and Success what its actions and its end mean.
--   WalletCore/StateUtils: packages/wallet-core/src/state-utils.ts; its children have the equality of outcomes
--     (Equality) and the conversions to packages/nitro-protocol and back (Conversion).
--   WalletCore/WireFormat: serialize.ts and deserialize.ts of packages/wallet-core/src/serde/wire-format; its
--     child RoundTrip has what comes back.
--   Server/ValidateTransition: packages/server-wallet/src/utilities/validate-transition.ts, against the rule
--     of Nitro/Transition (Allowed).
--   Server/Channel: the class `Channel` of packages/server-wallet/src/models/channel.ts, with the search of
--     `_support` as a recursion over the sorted states; Channel/Queries has the getters that the protocols
--     ask. SignOff, Support, Closing and Complete are about supports and conclusion proofs, Funds about the
--     milestones.
--   Server/Store: `signState`, `addMyState` and `addSignedState` of
--     packages/server-wallet/src/engine/store.ts, with `addState` and `clearOldStates` of
--     packages/server-wallet/src/state-utils.ts. `addMyState` and `addSignedState` share `store_state`.
--   Server/Database: the rows of funding, of requests to the chain and of the status on chain
--     (packages/server-wallet/src/models), the record `World` of the rows that a crank works on, and the
--     outputs that it queues.
--   Server/Opening: packages/server-wallet/src/protocols/channel-opener.ts with direct-funder.ts and
--     ledger-funder.ts beside it; its children have what signing leaves of the rows (Signed), the
--     deposits (Deposits), the end (Opened) and the states that are sent (Silent, Sends).
--   Server/Defunder and Server/Closing: defunder.ts, and channel-closer.ts, defund-channel.ts and
--     challenge-submitter.ts beside it; who submits (Submitters), what (Submissions), what signing the final
--     states leaves (Leaves), and the end (Defunding, Closed).
--   Server/EngineResponse: the messages of packages/server-wallet/src/engine/engine-response.ts; its children
--     have what `uniqueAndSorted` keeps (Values), the merge (Merging) and the merge of what is merged (Outbox).
--   Server/Status: packages/server-wallet/src/protocols/state.ts, against the milestones (Ready).
--   Server/AllocationOutcome: the class `SimpleAllocationOutcome` of
--     packages/server-wallet/src/models/channel/outcome.ts; its children have the checks a request
--     passes (Steps), the accounts (Accounts, Conservation), the round trip and the overdraft.
--   Server/LedgerRequest: packages/server-wallet/src/models/ledger-request.ts. Server/LedgerState: the
--     wrapper of packages/server-wallet/src/models/channel/state.ts and `determineLedgerState`; its child
--     Determined has which signatures give which state.
--   Server/LedgerProtocol: packages/server-wallet/src/protocols/ledger-protocol.ts, the operations on the
--     requests and on the outcome; its child Cranks has the cranks of the leader and of the follower,
--     RequestIdentity, Identity and Untouched what is left alone, Outcomes, Comparing and Signing the
--     funds, Balances, Marking, Cancellations, Refusing and Stalled the two cases that the protocol
--     does not guard against. The requests that the code mutates are a list
--     that is passed on, where a request is known by its channel and its type, as in the database; so
--     no two requests of one crank have both in common.
--   Nitro/AssetHolder: packages/nitro-protocol/src/contract/multi-asset-holder.ts, the payouts of a
--     transfer; its child Claim has those of a claim, whose decoder of guarantees is a parameter.
--   Nitro/Transition: packages/nitro-protocol/src/valid-transition.ts; the relation `Reaches` of its child
--     Histories has the states that a channel reaches by valid transitions. Nitro/ChannelMode and
--     Nitro/ChannelStorage: packages/nitro-protocol/src/channel-mode.ts and contract/channel-storage.ts
--     beside it.
--   Browser/ChannelEntry: packages/browser-wallet/src/store/channel-store-entry.ts; its child Chains has its test
--     of what follows what against the rule of the contract.
--
-- The choices. Strings that the code only compares are native numbers. Amounts are integers without a
-- bound, as ethers' `BigNumber` is; a hexadecimal string and the number that it spells are one value.
-- An exception is a value of `Error`; which text it carries is not kept. Every loop of the code runs
-- over a list and is a structural recursion, so nothing has fuel.
--
-- A crank is a function of its rows and the time; a failed one leaves the rows as they were, as its
-- transaction is rolled back. The closer catches what its body throws, so its crank gives the rows or the
-- exception that it rolled back with, and what it waits for. A wallet is a participant of its channels, and a channel has participants.
--
-- What is not modelled: hashing, signing and the recovery of a signer (fields of the records `Crypto`,
-- `Env`, `Ethers` and `Hashes`), the code of an application (a field of `Checks`), the database itself, the order in
-- which the engine cranks its objectives, the chain service, the objectives on the wire and what the application
-- is told of a channel besides its status, and of the browser wallet all but the entry of a channel in its
-- store.
pub mod Browser
pub mod Common
pub mod WalletCore
pub mod Server
pub mod Nitro
