-- ===== src/Server/Channel/Support.antt =====
-- packages/server-wallet/src/models/channel.ts: what the states that `support` returns have in common.
use statechannels.Common.{
  ◌≡◌, refl, sym, subst, ◌⊎◌, inl, inr, true, false, Bool, not, Option, none, some, List, [], ◌∷◌,
  ◌++◌, All, All-snoc, any-snoc_last, any-snoc_before, any, includes, if◌then◌else◌, Bool-cases,
  arith,
}
use statechannels.Common.Results.{ok}
use statechannels.WalletCore.Types.{Address}
use statechannels.WalletCore.StateUtils.{to_nitro_state}
use statechannels.Nitro.Transition.{
  NitroState, ValidTransitionStatus, require_valid_protocol_transition,
}
use statechannels.Nitro.Transition.Histories.{Reaches, starts, follows}
use statechannels.Server.Channel.{
  HashedState, Channel, has_signed, sign_off, mover_signed, addresses_of, breaks, Search,
  start_search, take_state, returned_or, search_support, support, is_null_app, sorted_states,
}
use statechannels.Server.ValidateTransition.{Checks}
use statechannels.Server.ValidateTransition.Allowed.{valid→allowed}
use statechannels.Server.Channel.SignOff.{sign_off-some, sign_off-none}

Reaches-before :
    {O : Type 0} (is_equal : O → O → Bool) (s t u : NitroState O) {v : ValidTransitionStatus}
    → require_valid_protocol_transition is_equal s t ≡ ok v
    → Reaches is_equal t u
    → Reaches is_equal s u
Reaches-before is_equal s t u e starts = follows starts e
Reaches-before is_equal s t u e (follows {t = w} r f) =
    follows (Reaches-before is_equal s t w e r) f

abbrev pub History : Checks → HashedState → HashedState → Type 0
History checks older newer =
    Reaches checks.is_equal (to_nitro_state older.state) (to_nitro_state newer.state)

-- Each state of a list is followed by states from which valid transitions lead to it.
abbrev pub Descends : Checks → List HashedState → Type 0
Descends checks [] = Unit
Descends checks (s ∷ ss) = All (λ t. History checks t s) ss × Descends checks ss

Descends-append :
    (checks : Checks) (ss : List HashedState) (t : HashedState)
    → Descends checks ss
    → All (λ s. History checks t s) ss
    → Descends checks (ss ++ t ∷ [])
Descends-append checks [] t d h = (tt, tt)
Descends-append checks (s ∷ ss) t (here, rest) (h, hs) =
    (All-snoc (λ x. History checks x s) ss t here h, Descends-append checks ss t rest hs)

-- From the state looked at before, valid transitions lead to the states pushed so far.
abbrev Leads : Checks → Option HashedState → List HashedState → Type 0
Leads checks none xs = xs ≡ []
Leads checks (some p) xs = All (λ x. History checks p x) xs

abbrev MoversSigned : Channel → List HashedState → Type 0
MoversSigned ch = All λ t. mover_signed ch.participants t ≡ true

-- Every participant who is not among those has signed a state of the list.
abbrev SignedExcept : Channel → List Address → List HashedState → Type 0
SignedExcept ch missing xs =
    (a : Address)
    → includes a (addresses_of ch.participants) ≡ true
    → includes a missing ≡ false
    → any (has_signed a) xs ≡ true

-- The movers of its states have signed them, transitions lead from each to those before it, and every
-- participant has signed one.
pub record IsSupport (checks : Checks) (ch : Channel) (xs : List HashedState) : Type 0 where
  pub movers : MoversSigned ch xs
  pub descends : Descends checks xs
  pub everyone :
      (a : Address)
      → includes a (addresses_of ch.participants) ≡ true
      → any (has_signed a) xs ≡ true

record Backed (checks : Checks) (ch : Channel) (search : Search) : Type 0 where
  movers : MoversSigned ch search.0
  descends : Descends checks search.0
  signed : SignedExcept ch search.1 search.0

start_search-Backed : (checks : Checks) (ch : Channel) → Backed checks ch (start_search ch)
start_search-Backed checks ch = record { movers = tt; descends = tt; signed = λ a h k. absurd (cc) }

Leads-before :
    (checks : Checks) (ch : Channel) (s p : HashedState) (xs : List HashedState)
    → breaks checks ch s (some p) ≡ false
    → All (λ x. History checks p x) xs
    → All (λ x. History checks s x) xs
Leads-before checks ch s p [] unbroken h = tt
Leads-before checks ch s p (x ∷ xs) unbroken (h, hs) =
    let (v, allowed) =
      valid→allowed checks s.state p.state none (not (is_null_app ch)) (ground arith) in
    (
      Reaches-before checks.is_equal (to_nitro_state s.state) (to_nitro_state p.state)
          (to_nitro_state x.state) allowed h,
      Leads-before checks ch s p xs unbroken hs,
    )

Leads-next :
    (checks : Checks) (ch : Channel) (s : HashedState) (previous : Option HashedState)
    (xs : List HashedState)
    → breaks checks ch s previous ≡ false
    → Leads checks previous xs
    → All (λ x. History checks s x) xs
Leads-next checks ch s none xs unbroken h =
    subst (λ ys. All (λ x. History checks s x) ys) (sym h) tt
Leads-next checks ch s (some p) xs unbroken h = Leads-before checks ch s p xs unbroken h

-- What the search has, or returns, after a state
abbrev Taken : Checks → Channel → HashedState → Search ⊎ List HashedState → Type 0
Taken checks ch s (inl further) = Backed checks ch further × All (λ x. History checks s x) further.0
Taken checks ch s (inr complete) = IsSupport checks ch complete

module _ (checks : Checks) (ch : Channel) (s : HashedState) where
  signed_now :
      (search : Search) (a : Address)
      → Backed checks ch search
      → includes a (addresses_of ch.participants) ≡ true
      → (includes a search.1 ≡ true → has_signed a s ≡ true)
      → any (has_signed a) (search.0 ++ s ∷ []) ≡ true
  signed_now (xs, missing) a b known h = elim (Bool-cases (includes a missing)) [
    | inl unsigned ↦ any-snoc_last (has_signed a) xs s (h unsigned)
    | inr before ↦ any-snoc_before (has_signed a) xs s (b.signed a known before)
  ]

  push-Taken :
      (search : Search) (left : Option (List Address))
      → sign_off search.1 s.signatures ≡ left
      → Backed checks ch search
      → All (λ x. History checks s x) search.0
      → mover_signed ch.participants s ≡ true
      → Taken checks ch s
          (elim left [ none ↦ inr (search.0 ++ s ∷ []) | some l ↦ inl (search.0 ++ s ∷ [], l) ])
  push-Taken (xs, missing) none q b leads mover = record {
    movers = All-snoc (λ t. mover_signed ch.participants t ≡ true) xs s b.movers mover;
    descends = Descends-append checks xs s b.descends leads;
    everyone =
        λ a known. signed_now (xs, missing) a b known (sign_off-none missing s.signatures a q);
  }
  push-Taken (xs, missing) (some left) q b leads mover = (
    record {
      movers = All-snoc (λ t. mover_signed ch.participants t ≡ true) xs s b.movers mover;
      descends = Descends-append checks xs s b.descends leads;
      signed = λ a known gone.
          signed_now (xs, missing) a b known
            (λ h. sign_off-some missing s.signatures left a q h gone);
    },
    All-snoc (λ x. History checks s x) xs s leads starts,
  )

  take_state-Taken :
      (search : Search) (mover : Bool)
      → mover_signed ch.participants s ≡ mover
      → Backed checks ch search
      → All (λ x. History checks s x) search.0
      → Taken checks ch s (take_state s search mover)
  take_state-Taken search false q b leads = (b, leads)
  take_state-Taken (xs, missing) true q b leads =
      push-Taken (xs, missing) (sign_off missing s.signatures) refl b leads q

  kept-Taken :
      (search : Search) (previous : Option HashedState)
      → Backed checks ch search
      → Leads checks previous search.0
      → Taken checks ch s (
          take_state s
            (if breaks checks ch s previous then start_search ch else search)
            (mover_signed ch.participants s))
  kept-Taken search previous b leads = elim (Bool-cases (breaks checks ch s previous)) [
    | inl broken ↦ rw broken (
        take_state-Taken (start_search ch) (mover_signed ch.participants s) refl
          (start_search-Backed checks ch) tt)
    | inr unbroken ↦ rw unbroken (
        take_state-Taken search (mover_signed ch.participants s) refl b
          (Leads-next checks ch s previous search.0 unbroken leads))
  ]

module _ (checks : Checks) (ch : Channel) where
  Supported : List HashedState → Type 0
  Supported xs = (xs ≡ []) ⊎ IsSupport checks ch xs

  returned_or-Supported :
      (s : HashedState) (next : Search → List HashedState) (taken : Search ⊎ List HashedState)
      → ((further : Search)
          → Backed checks ch further
          → All (λ x. History checks s x) further.0
          → Supported (next further))
      → Taken checks ch s taken
      → Supported (returned_or next taken)
  unfolding Supported
  returned_or-Supported s next (inl further) go (b, leads) = go further b leads
  returned_or-Supported s next (inr complete) go h = inr h

  search_support-IsSupport :
      (ss : List HashedState) (search : Search) (previous : Option HashedState)
      → Backed checks ch search
      → Leads checks previous search.0
      → Supported (search_support checks ch ss search previous)
  unfolding search_support Supported
  search_support-IsSupport [] search previous b leads = inl refl
  search_support-IsSupport (s ∷ ss) search previous b leads =
      returned_or-Supported s (λ further. search_support checks ch ss further (some s))
        (take_state s (if breaks checks ch s previous then start_search ch else search)
          (mover_signed ch.participants s))
        (λ further b' leads'. search_support-IsSupport ss further (some s) b' leads')
        (kept-Taken checks ch s search previous b leads)

  -- The states that `support` returns, where there are any, have been signed by the movers of their
  -- turns, every participant has signed one of them, and from each of them transitions that the protocol
  -- allows lead to all that come before it in the list.
  pub support-IsSupport : (support checks ch ≡ []) ⊎ IsSupport checks ch (support checks ch)
  unfolding Supported
  support-IsSupport =
      search_support-IsSupport (sorted_states ch) (start_search ch) none
        (start_search-Backed checks ch) refl
