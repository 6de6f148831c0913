-- ===== src/WalletCore/DirectFunder/Signatures.antt =====
-- `mergeSignatures` of packages/wallet-core/src/protocols/direct-funder.ts: what it makes of two lists.
use statechannels.Common.{
  ℕ, ◌<◌, ◌≡◌, refl, ◌∙◌, false, not, ◌&&◌, ◌||◌, List, [], ◌∷◌, ◌++◌, ◌==◌, leb, includes, All,
  arith, Bool-cases, inl, inr,
}
use statechannels.Common.Counting.{Distinct}
use statechannels.WalletCore.Types.{SignatureEntry}
use statechannels.WalletCore.DirectFunder.{
  signers, uniq_by_signer, insert_by_signer, sort_by_signer, merge_signatures,
}

-- The signers rise along the list, so none signs twice.
abbrev pub IsAscending : List ℕ → Type 0
IsAscending [] = Unit
IsAscending (x ∷ xs) = All (λ y. x < y) xs × IsAscending xs

signers-append :
    (a : ℕ) (xs ys : List SignatureEntry)
    → includes a (signers (xs ++ ys)) ≡ (includes a (signers xs) || includes a (signers ys))
signers-append a [] ys = refl
signers-append a (x ∷ xs) ys = ground (arith, signers-append a xs ys)

signers-uniq :
    (a : ℕ) (seen : List ℕ) (es : List SignatureEntry)
    → includes a (signers (uniq_by_signer seen es))
      ≡ (not (includes a seen) && includes a (signers es))
unfolding uniq_by_signer
signers-uniq a seen [] = ground arith
signers-uniq a seen (e ∷ es) = elim (Bool-cases (includes e.signer seen)) [
  | inl again ↦ rw again (ground (arith, signers-uniq a seen es))
  | inr new ↦ rw new (ground (arith, signers-uniq a (e.signer ∷ seen) es))
]

signers-insert :
    (a : ℕ) (e : SignatureEntry) (xs : List SignatureEntry)
    → includes a (signers (insert_by_signer e xs)) ≡ (e.signer == a || includes a (signers xs))
unfolding insert_by_signer
signers-insert a e [] = refl
signers-insert a e (x ∷ xs) = ground (arith, signers-insert a e xs)

signers-sort :
    (a : ℕ) (es : List SignatureEntry)
    → includes a (signers (sort_by_signer es)) ≡ includes a (signers es)
unfolding sort_by_signer
signers-sort a [] = refl
signers-sort a (e ∷ es) = rw (signers-insert, signers-sort a es)

uniq-Distinct :
    (seen : List ℕ) (es : List SignatureEntry) → Distinct (signers (uniq_by_signer seen es))
unfolding uniq_by_signer
uniq-Distinct seen [] = tt
uniq-Distinct seen (e ∷ es) = elim (Bool-cases (includes e.signer seen)) [
  | inl again ↦ rw again (uniq-Distinct seen es)
  | inr new ↦ rw new (
    signers-uniq e.signer (e.signer ∷ seen) es ∙ ground arith,
    uniq-Distinct (e.signer ∷ seen) es,
  )
]

-- A bound below all signers, also of the entry that is inserted.
insert-All :
    (b : ℕ) (e : SignatureEntry) (xs : List SignatureEntry)
    → b < e.signer
    → All (λ y. b < y) (signers xs)
    → All (λ y. b < y) (signers (insert_by_signer e xs))
unfolding insert_by_signer
insert-All b e [] h k = (h, tt)
insert-All b e (x ∷ xs) h k = elim (Bool-cases (leb e.signer x.signer)) [
  | inl first ↦ rw first (h, k)
  | inr later ↦ rw later (k.0, insert-All b e xs h k.1)
]

All-mono : (a b : ℕ) (xs : List ℕ) → a < b → All (λ y. b < y) xs → All (λ y. a < y) xs
All-mono a b [] h k = tt
All-mono a b (x ∷ xs) h k = (omega arith, All-mono a b xs h k.1)

insert-IsAscending :
    (e : SignatureEntry) (xs : List SignatureEntry)
    → includes e.signer (signers xs) ≡ false
    → IsAscending (signers xs)
    → IsAscending (signers (insert_by_signer e xs))
unfolding insert_by_signer
insert-IsAscending e [] h k = (tt, tt)
insert-IsAscending e (x ∷ xs) h k = elim (Bool-cases (leb e.signer x.signer)) [
  | inl first ↦
      let lt : e.signer < x.signer = ground arith in
      rw first ((lt, All-mono e.signer x.signer (signers xs) lt k.0), k)
  | inr later ↦
      rw later
        (insert-All x.signer e xs (ground arith) k.0, insert-IsAscending e xs (ground arith) k.1)
]

sort-IsAscending :
    (es : List SignatureEntry) → Distinct (signers es) → IsAscending (signers (sort_by_signer es))
unfolding sort_by_signer
sort-IsAscending [] d = tt
sort-IsAscending (e ∷ es) d =
    insert-IsAscending e (sort_by_signer es) (signers-sort e.signer es ∙ d.0)
      (sort-IsAscending es d.1)

-- A merge lists the signers of both sides and no other, each once, in rising order.
pub merge_signatures-signers :
    (left right : List SignatureEntry)
    → IsAscending (signers (merge_signatures left right))
      × ((a : ℕ)
          → includes a (signers (merge_signatures left right))
            ≡ (includes a (signers left) || includes a (signers right)))
unfolding merge_signatures
merge_signatures-signers left right = (
  sort-IsAscending (uniq_by_signer [] (left ++ right)) (uniq-Distinct [] (left ++ right)),
  λ a. rw (signers-sort, signers-uniq, signers-append a left right) refl,
)

lt-not_includes : (x : ℕ) (xs : List ℕ) → All (λ y. x < y) xs → includes x xs ≡ false
lt-not_includes x [] h = refl
lt-not_includes x (y ∷ ys) h = ground (arith, lt-not_includes x ys h.1)

pub IsAscending-Distinct : (xs : List ℕ) → IsAscending xs → Distinct xs
IsAscending-Distinct [] h = tt
IsAscending-Distinct (x ∷ xs) h = (lt-not_includes x xs h.0, IsAscending-Distinct xs h.1)
