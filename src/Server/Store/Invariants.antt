-- ===== src/Server/Store/Invariants.antt =====
-- packages/server-wallet/src/engine/store.ts: `validateInvariants`, and what holds of a row.
use statechannels.Common.{
  ℕ, ◌≡◌, refl, subst, ◌<◌, true, false, Bool, not, List, [], ◌∷◌, All, filter, arith,
}
use statechannels.Common.Results.{Result, ok, throw_if, ◌>>◌, Error, >>=-eq-ok}
use statechannels.WalletCore.Types.{Address}
use statechannels.Server.Channel.{StoredState, HashedState, Channel, support}
use statechannels.Server.Store.{
  Env, turn_nums, repeats, is_reverse_sorted, validate_invariants, store_state, add_state,
  clear_old_states, signed_by_address,
}

-- Each turn is later than all that follow it.
abbrev pub IsDescending : List ℕ → Type 0
IsDescending [] = Unit
IsDescending (t ∷ ts) = All (λ u. u < t) ts × IsDescending ts

pub All-weaken :
    {A : Type 0} (P Q : A → Type 0) (xs : List A) → ((a : A) → P a → Q a) → All P xs → All Q xs
All-weaken P Q [] f h = tt
All-weaken P Q (x ∷ xs) f (h, hs) = (f x h, All-weaken P Q xs f hs)

sorted-IsDescending :
    (ts : List ℕ) → is_reverse_sorted ts ≡ true → repeats ts ≡ false → IsDescending ts
sorted-IsDescending [] sorted once = tt
sorted-IsDescending (t ∷ []) sorted once = (tt, tt)
sorted-IsDescending (t ∷ u ∷ ts) sorted once =
    let (below, rest) = sorted-IsDescending (u ∷ ts) (ground arith) (ground arith) in
    let here : u < t = ground arith in
    ((here, All-weaken (λ v. v < u) (λ v. v < t) ts (λ v h. omega arith) below), (below, rest))

pub throw_if-ok :
    {A : Type 0} (b : Bool) (e : Error) (m : Result A) {a : A}
    → (throw_if b e >> m) ≡ ok a
    → (b ≡ false) × (m ≡ ok a)
throw_if-ok true e m h = absurd (cc)
throw_if-ok false e m h = (refl, h)

throw_if-last : (b : Bool) (e : Error) {a : Unit {0}} → throw_if b e ≡ ok a → b ≡ false
throw_if-last true e h = absurd (cc)
throw_if-last false e h = refl

-- What the store checks of the states that it keeps
pub validate_invariants-IsDescending :
    (xs : List StoredState) (me : Address) {a : Unit {0}}
    → validate_invariants xs me ≡ ok a
    → IsDescending (turn_nums xs)
unfolding validate_invariants
validate_invariants-IsDescending xs me {a} h =
    let (single, h1) =
      throw_if-ok (repeats (turn_nums (filter (signed_by_address me) xs))) _ _ {a = a} h in
    let (once, h2) = throw_if-ok (repeats (turn_nums xs)) _ _ {a = a} h1 in
    let sorted = throw_if-last (not (is_reverse_sorted (turn_nums xs))) _ {a = a} h2 in
    sorted-IsDescending (turn_nums xs) (ground arith) once

-- A row that the store writes has one state for each of its turns, the latest first.
pub store_state-IsDescending :
    (env : Env) (ch : Channel) (s : HashedState) {ch' : Channel}
    → store_state env ch s ≡ ok ch'
    → IsDescending (turn_nums ch'.stored) × (ch'.signing_address ≡ ch.signing_address)
unfolding store_state
store_state-IsDescending env ch s {ch'} h =
    let added : Channel = record ch { stored = add_state ch.stored s } in
    let kept = clear_old_states added.stored (support env.checks added) in
    let (u, valid, e) = >>=-eq-ok (validate_invariants kept ch.signing_address) _ {b = ch'} h in
    let same : kept ≡ ch'.stored = ground arith in
    (
      subst (λ l. IsDescending (turn_nums l)) same
          (validate_invariants-IsDescending kept ch.signing_address valid),
      ground arith,
    )
