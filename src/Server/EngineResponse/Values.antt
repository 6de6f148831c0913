-- ===== src/Server/EngineResponse/Values.antt =====
-- packages/server-wallet/src/engine/engine-response.ts: what `uniqueAndSorted` and the recipients of
-- `mergeOutgoing` keep of a list.
use statechannels.Common.{
  ℕ, ◌≡◌, refl, ap, Bool, true, false, List, [], ◌∷◌, ◌++◌, ◌&&◌, ◌||◌, ◌==◌, inl, inr, includes,
  any, Bool-cases, arith,
}
use statechannels.Server.EngineResponse.{
  Content, uniq_with, insert_ordered, order_by, unique_and_sorted, or_empty, unless_empty,
}
use statechannels.Server.Store.{repeats}

or_empty-unless_empty : {T : Type 0} (xs : List T) → or_empty (unless_empty xs) ≡ xs
or_empty-unless_empty [] = refl
or_empty-unless_empty (x ∷ xs) = refl

pub any-append :
    {T : Type 0} (p : T → Bool) (xs ys : List T) → any p (xs ++ ys) ≡ any p xs || any p ys
any-append p [] ys = refl
any-append p (x ∷ xs) ys = let rest = any-append p xs ys in ground arith

-- The test of equality says `true` of equal values only.
abbrev pub Sound : {T : Type 0} → (T → T → Bool) → Type 0
Sound {T} same = (x y : T) → same x y ≡ true → x ≡ y

any-seen :
    {T : Type 0} (same : T → T → Bool) (p : T → Bool) (x : T) (seen : List T)
    → Sound same
    → any (same x) seen ≡ true
    → p x || any p seen ≡ any p seen
any-seen same p x [] sound h = absurd (cc)
any-seen same p x (y ∷ ys) sound h = elim (Bool-cases (same x y)) [
  | inl here ↦ let e = ap p (sound x y here) in ground arith
  | inr later ↦ let rest = any-seen same p x ys sound (rw later at h) in ground arith
]

pub any-uniq_with :
    {T : Type 0} (same : T → T → Bool) (p : T → Bool) (seen xs : List T)
    → Sound same
    → any p (uniq_with same seen xs) || any p seen ≡ any p xs || any p seen
unfolding uniq_with
any-uniq_with same p seen [] sound = refl
any-uniq_with same p seen (x ∷ xs) sound = elim (Bool-cases (any (same x) seen)) [
  | inl again ↦
      let e = any-seen same p x seen sound again in
      let rest = any-uniq_with same p seen xs sound in ground arith
  | inr fresh ↦ let rest = any-uniq_with same p (x ∷ seen) xs sound in ground arith
]

any-insert_ordered :
    {T : Type 0} (c : Content T) (p : T → Bool) (x : T) (ys : List T)
    → any p (insert_ordered c x ys) ≡ p x || any p ys
unfolding insert_ordered
any-insert_ordered c p x [] = refl
any-insert_ordered c p x (y ∷ ys) = let rest = any-insert_ordered c p x ys in ground arith

any-order_by :
    {T : Type 0} (c : Content T) (p : T → Bool) (xs : List T) → any p (order_by c xs) ≡ any p xs
unfolding order_by
any-order_by c p [] = refl
any-order_by c p (x ∷ xs) =
    let rest = any-order_by c p xs in
    let e = any-insert_ordered c p x (order_by c xs) in ground arith

pub any-unique_and_sorted :
    {T : Type 0} (c : Content T) (p : T → Bool) (xs : List T)
    → Sound c.same
    → any p (or_empty (unless_empty (unique_and_sorted c xs))) ≡ any p xs
any-unique_and_sorted c p xs sound =
    let a = ap (any p) (or_empty-unless_empty (unique_and_sorted c xs)) in
    let b = any-order_by c p (uniq_with c.same [] xs) in
    let d = any-uniq_with c.same p [] xs sound in ground arith

-- Each recipient once
includes-any : (r x : ℕ) (seen : List ℕ) → x ≡ r → includes r seen ≡ any (λ y. x == y) seen
includes-any r x [] e = refl
includes-any r x (y ∷ ys) e = let rest = includes-any r x ys e in ground arith

pub includes_first : (x : ℕ) (seen : List ℕ) → includes x (x ∷ seen) ≡ true
includes_first x seen = ground arith

seen-uniq :
    (r : ℕ) (seen xs : List ℕ)
    → includes r seen ≡ true
    → includes r (uniq_with (λ a b. a == b) seen xs) ≡ false
unfolding uniq_with
seen-uniq r seen [] h = refl
seen-uniq r seen (x ∷ xs) h = elim (Bool-cases (any (λ y. x == y) seen)) [
  | inl again ↦ let rest = seen-uniq r seen xs h in ground arith
  | inr fresh ↦
      let other : (x == r) ≡ false = elim (Bool-cases (x == r)) [
        | inl same ↦
            let e : x ≡ r = ground arith in absurd (let both = includes-any r x seen e in cc)
        | inr apart ↦ apart
      ] in
      let later : includes r (x ∷ seen) ≡ true = ground arith in
      let rest = seen-uniq r (x ∷ seen) xs later in ground arith
]

pub repeats-uniq : (seen xs : List ℕ) → repeats (uniq_with (λ a b. a == b) seen xs) ≡ false
unfolding uniq_with
repeats-uniq seen [] = refl
repeats-uniq seen (x ∷ xs) = elim (Bool-cases (any (λ y. x == y) seen)) [
  | inl again ↦ let rest = repeats-uniq seen xs in ground arith
  | inr fresh ↦
      let rest = repeats-uniq (x ∷ seen) xs in
      let once = seen-uniq x (x ∷ seen) xs (includes_first x seen) in ground arith
]

pub or_absorbs : (a b : Bool) → a || b && a ≡ a
or_absorbs true b = refl
or_absorbs false true = refl
or_absorbs false false = refl
