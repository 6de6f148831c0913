-- ===== src/Server/Channel/SignOff.antt =====
-- packages/server-wallet/src/models/channel.ts: whom the search for a support takes off its set.
use statechannels.Common.{
  ◌≡◌, inl, inr, true, false, none, some, List, [], ◌∷◌, ◌==◌, any, includes, Bool-cases,
  List-cases, arith,
}
use statechannels.WalletCore.Types.{Address, SignatureEntry}
use statechannels.Server.Channel.{sign_off, delete}

includes-delete :
    (x a : Address) (xs : List Address)
    → (x == a) ≡ false
    → includes a xs ≡ true
    → includes a (delete x xs) ≡ true
includes-delete x a [] h k = absurd (cc)
includes-delete x a (y ∷ ys) h k = ground (arith, includes-delete x a ys h)

-- Whom the search misses before a state and not after it, or not when it ends, has signed the state.
pub sign_off-some :
    (missing : List Address) (es : List SignatureEntry) (left : List Address) (a : Address)
    → sign_off missing es ≡ some left
    → includes a missing ≡ true
    → includes a left ≡ false
    → any (λ (e : SignatureEntry). e.signer == a) es ≡ true
unfolding sign_off
sign_off-some missing [] left a h known gone = absurd (cc)
sign_off-some missing (e ∷ es) left a h known gone = elim (Bool-cases (e.signer == a)) [
  | inl mine ↦ ground arith
  | inr other ↦ elim (List-cases (delete e.signer missing)) [
    | inl empty ↦ absurd (cc)
    | inr (b, bs, q) ↦
        let kept = includes-delete e.signer a missing other known in
        let rest = sign_off-some (b ∷ bs) es left a (rw (q, sign_off) at h) (rw q at kept) gone in
        ground arith
  ]
]

pub sign_off-none :
    (missing : List Address) (es : List SignatureEntry) (a : Address)
    → sign_off missing es ≡ none
    → includes a missing ≡ true
    → any (λ (e : SignatureEntry). e.signer == a) es ≡ true
unfolding sign_off
sign_off-none missing [] a h known = absurd (cc)
sign_off-none missing (e ∷ es) a h known = elim (Bool-cases (e.signer == a)) [
  | inl mine ↦ ground arith
  | inr other ↦
      let kept = includes-delete e.signer a missing other known in
      elim (List-cases (delete e.signer missing)) [
        | inl empty ↦ absurd (cc)
        | inr (b, bs, q) ↦
            let rest = sign_off-none (b ∷ bs) es a (rw (q, sign_off) at h) (rw q at kept) in
            ground arith
      ]
]
