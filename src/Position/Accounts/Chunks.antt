-- ===== src/Position/Accounts/Chunks.antt =====
-- The chunks of accounts of batch/indexer_Position_Bond.py.
use ibet_wallet_api.Base.{
  ℕ, zero, suc, ◌≤◌, ◌<◌, ◌≡◌, refl, ap, ◌∙◌, List, [], ◌∷◌, ◌++◌, length, All, arith,
}
use ibet_wallet_api.Position.Accounts.{take, drop, chunks_of, chunked}

module _ {A : Type 0} where
  abbrev pub concat : List (List A) → List A
  concat [] = []
  concat (xs ∷ xss) = xs ++ concat xss

  take-drop : (n : ℕ) (xs : List A) → take n xs ++ drop n xs ≡ xs
  take-drop zero xs = refl
  take-drop (suc n) [] = refl
  take-drop (suc n) (x ∷ xs) = ap (λ ys. x ∷ ys) (take-drop n xs)

  length-take : (n : ℕ) (xs : List A) → length (take n xs) ≤ n
  length-take zero xs = omega arith
  length-take (suc n) [] = omega arith
  length-take (suc n) (x ∷ xs) = omega (arith, length-take n xs)

  length-drop : (n : ℕ) (xs : List A) → length (drop n xs) ≤ length xs
  length-drop zero xs = omega arith
  length-drop (suc n) [] = omega arith
  length-drop (suc n) (x ∷ xs) = omega (arith, length-drop n xs)

  concat-chunks_of :
      (fuel size : ℕ) (xs : List A) → length xs ≤ fuel → concat (chunks_of fuel (suc size) xs) ≡ xs
  concat-chunks_of zero size [] h = refl
  concat-chunks_of zero size (x ∷ xs) h = absurd (omega (arith, h))
  concat-chunks_of (suc fuel) size [] h = refl
  concat-chunks_of (suc fuel) size (x ∷ xs) h =
      ap (λ ys. x ∷ (take size xs ++ ys))
        (concat-chunks_of fuel size (drop size xs) (omega (arith, h, length-drop size xs)))
      ∙ ap (λ ys. x ∷ ys) (take-drop size xs)

  length-chunks_of :
      (fuel size : ℕ) (xs : List A)
      → All (λ c. (0 < length c) × (length c ≤ suc size)) (chunks_of fuel (suc size) xs)
  length-chunks_of zero size xs = tt
  length-chunks_of (suc fuel) size [] = tt
  length-chunks_of (suc fuel) size (x ∷ xs) =
      ((omega arith, omega (arith, length-take size xs)), length-chunks_of fuel size (drop size xs))

  -- The chunks of a list, one after the other, are the list; none is empty, and none is longer than
  -- the size, which is not zero.
  pub chunked-IsSplit :
      (size : ℕ) (xs : List A)
      → (concat (chunked (suc size) xs) ≡ xs)
        × All (λ c. (0 < length c) × (length c ≤ suc size)) (chunked (suc size) xs)
  unfolding chunked
  chunked-IsSplit size xs =
      (concat-chunks_of (length xs) size xs (omega arith), length-chunks_of (length xs) size xs)
