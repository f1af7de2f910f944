-- ===== src/Oracle/Sorting.antt =====
-- The sort that `median` applies: it orders its input and keeps every count.
use stellar_kraal_backend.Prelude.{
  Bool-cases, length, count, All, All-imp, suc, ◌≡◌, refl, inl, inr, Bool, true, false, List, [],
  ◌∷◌, arith,
}
use stellar_kraal_backend.Number.{Arith, Laws}
use stellar_kraal_backend.Oracle.{insert, sort}

module _ {A : Type 0} ⦃n : Arith A⦄ where
  abbrev pub IsSorted : List A → Type 0
  IsSorted [] = Unit
  IsSorted (a ∷ rest) = All (λ b. n.le a b ≡ true) rest × IsSorted rest

  pub count-insert : (p : A → Bool) (a : A) (bs : List A) → count p (insert a bs) ≡ count p (a ∷ bs)
  unfolding insert
  count-insert p a [] = refl
  count-insert p a (b ∷ bs) = ground (arith, count-insert p a bs)

  -- Sorting keeps how many elements pass any test.
  pub count-sort : (p : A → Bool) (as' : List A) → count p (sort as') ≡ count p as'
  unfolding sort
  count-sort p [] = refl
  count-sort p (a ∷ rest) = ground (arith, count-insert p a (sort rest), count-sort p rest)

  pub length-insert : (a : A) (bs : List A) → length (insert a bs) ≡ suc (length bs)
  unfolding insert
  length-insert a [] = refl
  length-insert a (b ∷ bs) = ground (arith, length-insert a bs)

  pub length-sort : (xs : List A) → length (sort xs) ≡ length xs
  unfolding sort
  length-sort [] = refl
  length-sort (a ∷ rest) = ground (arith, length-insert a (sort rest), length-sort rest)

  pub All-insert {κ} : (P : A → Type κ) (a : A) (bs : List A) → P a → All P bs → All P (insert a bs)
  unfolding insert
  All-insert P a [] p h = (p, tt)
  All-insert P a (b ∷ bs) p (q, h) = elim (Bool-cases (n.le a b)) [
    | inl e ↦ rw e (p, (q, h))
    | inr e ↦ rw e (q, All-insert P a bs p h)
  ]

module _ {A : Type 0} ⦃n : Arith A⦄ (laws : Laws n) where
  pub le_of_not_le : (a b : A) → n.le a b ≡ false → n.le b a ≡ true
  le_of_not_le a b e = ground (arith, laws.le_total a b)

  pub insert-IsSorted : (a : A) (bs : List A) → IsSorted bs → IsSorted (insert a bs)
  unfolding insert
  insert-IsSorted a [] h = (tt, tt)
  insert-IsSorted a (b ∷ bs) (least, h) = elim (Bool-cases (n.le a b)) [
    | inl e ↦ rw e ((e, All-imp (λ c k. laws.le_trans a b c e k) bs least), (least, h))
    | inr e ↦
        rw e (
          All-insert (λ c. n.le b c ≡ true) a bs (le_of_not_le a b e) least,
          insert-IsSorted a bs h,
        )
  ]

  pub sort-IsSorted : (xs : List A) → IsSorted (sort xs)
  unfolding sort
  sort-IsSorted [] = tt
  sort-IsSorted (a ∷ rest) = insert-IsSorted a (sort rest) (sort-IsSorted rest)
