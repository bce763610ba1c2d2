-- ===== src/Chain/Sorted.antt =====
-- Python's `sorted` with the key (block number, log index): stable, here by insertion.
use ibet_wallet_api.Base.{
  ◌≡◌, refl, Bool, ◌&&◌, ◌||◌, List, [], ◌∷◌, ltb, leb, ◌==◌, if◌then◌else◌, ℤ, ◌+ℤ◌, int_laws,
  Bool-cases, inl, inr, ap, ◌∙◌,
}
use ibet_wallet_api.Chain.Range.{Log, total}

module _ {A : Type 0} where
  -- The key of the first is not above that of the second.
  abbrev key_le : Log A → Log A → Bool
  key_le x y =
      ltb x.block_number y.block_number
      || (x.block_number == y.block_number && leb x.log_index y.log_index)

  insert_event : Log A → List (Log A) → List (Log A)
  insert_event x [] = x ∷ []
  insert_event x (y ∷ ys) = if key_le x y then x ∷ y ∷ ys else y ∷ insert_event x ys

  unfoldable pub sorted : List (Log A) → List (Log A)
  unfolding insert_event
  sorted [] = []
  sorted (x ∷ xs) = insert_event x (sorted xs)

module _ {A : Type 0} (f : Log A → ℤ) where
  total-insert_event :
      (x : Log A) (xs : List (Log A)) → total f (insert_event x xs) ≡ f x +ℤ total f xs
  unfolding insert_event
  total-insert_event x [] = refl
  total-insert_event x (y ∷ ys) = elim (Bool-cases (key_le x y)) [
    | inl first ↦ rw first
    | inr later ↦ rw (later, total-insert_event x ys) (omega int_laws)
  ]

  -- Sorting changes no sum.
  pub total-sorted : (xs : List (Log A)) → total f (sorted xs) ≡ total f xs
  unfolding sorted
  total-sorted [] = refl
  total-sorted (x ∷ xs) = total-insert_event x (sorted xs) ∙ ap (λ t. f x +ℤ t) (total-sorted xs)
