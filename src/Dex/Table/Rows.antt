-- ===== src/Dex/Table/Rows.antt =====
-- Tables under the two ways in which batch/indexer_DEX.py writes: rows that are added unless their
-- key is there, and assignments to the first row of a key.
use ibet_wallet_api.Base.{
  ◌≡◌, refl, ap, ◌∙◌, Bool, true, false, ◌||◌, not, List, [], ◌∷◌, ◌++◌, Option, none, some, each,
  select, All, Bool-cases, Option-cases, inl, inr, arith,
}
use mathlib.Core.Path.{fun_ext}
use ibet_wallet_api.Base.{first_where, update_first}

module _ {A : Type 0} where
  abbrev pub exists_where : (A → Bool) → List A → Bool
  exists_where p [] = false
  exists_where p (x ∷ xs) = p x || exists_where p xs

  first_where-found :
      (p : A → Bool) (xs : List A) {x : A} → first_where p xs ≡ some x → exists_where p xs ≡ true
  unfolding first_where
  first_where-found p [] h = cc
  first_where-found p (y ∷ ys) h = elim (Bool-cases (p y)) [
    | inl here ↦ rw here
    | inr later ↦ rw later (first_where-found p ys (rw later at h))
  ]

  first_where-none :
      (p : A → Bool) (xs : List A) → first_where p xs ≡ none → exists_where p xs ≡ false
  unfolding first_where
  first_where-none p [] h = refl
  first_where-none p (y ∷ ys) h = elim (Bool-cases (p y)) [
    | inl here ↦ cc (rw here at h)
    | inr later ↦ rw later (first_where-none p ys (rw later at h))
  ]

  exists_where-append :
      (p : A → Bool) (xs : List A) (y : A)
      → exists_where p (xs ++ (y ∷ [])) ≡ (exists_where p xs || p y)
  exists_where-append p [] y = ground arith
  exists_where-append p (x ∷ xs) y = ground (arith, exists_where-append p xs y)

  exists_where-update_first :
      (p q : A → Bool) (f : A → A)
      → ((x : A) → p (f x) ≡ p x)
      → (xs : List A) → exists_where p (update_first q f xs) ≡ exists_where p xs
  unfolding update_first
  exists_where-update_first p q f keeps [] = refl
  exists_where-update_first p q f keeps (x ∷ xs) = elim (Bool-cases (q x)) [
    | inl here ↦ rw (here, keeps x)
    | inr later ↦ rw later (ap (λ b. p x || b) (exists_where-update_first p q f keeps xs))
  ]

-- Rows with a key, `same` being the test of the query for the key of a new row.
module _ {A : Type 0} (same : A → A → Bool) where
  abbrev pub add_found : Option A → A → List A → List A
  add_found none o xs = xs ++ (o ∷ [])
  add_found (some _) o xs = xs

  -- The row is added unless there is one of its key.
  abbrev pub add_row : A → List A → List A
  add_row o xs = add_found (first_where (same o) xs) o xs

  exists_where-add_row :
      (p : A → Bool) (o : A) (xs : List A)
      → exists_where p xs ≡ true
      → exists_where p (add_row o xs) ≡ true
  exists_where-add_row p o xs h = by_found (first_where (same o) xs)
    where
      by_found : (r : Option A) → exists_where p (add_found r o xs) ≡ true
      by_found none = exists_where-append p xs o ∙ (ground (arith, h))
      by_found (some _) = h

  exists_where-add_row_self :
      (o : A) (xs : List A) → same o o ≡ true → exists_where (same o) (add_row o xs) ≡ true
  exists_where-add_row_self o xs h = by_found (first_where (same o) xs) refl
    where
      by_found :
          (r : Option A)
          → first_where (same o) xs ≡ r
          → exists_where (same o) (add_found r o xs) ≡ true
      by_found none e = exists_where-append (same o) xs o ∙ (ground (arith, h))
      by_found (some _) e = first_where-found (same o) xs e

  pub exists_where-each :
      (p : A → Bool) (os : List A) (xs : List A)
      → exists_where p xs ≡ true
      → exists_where p (each add_row os xs) ≡ true
  exists_where-each p [] xs h = h
  exists_where-each p (o ∷ os) xs h =
      exists_where-each p os (add_row o xs) (exists_where-add_row p o xs h)

  -- Every row that was to be added is there.
  pub All-each :
      ((o : A) → same o o ≡ true)
      → (os xs : List A) → All (λ o. exists_where (same o) (each add_row os xs) ≡ true) os
  All-each self [] xs = tt
  All-each self (o ∷ os) xs = (
    exists_where-each (same o) os (add_row o xs) (exists_where-add_row_self o xs (self o)),
    All-each self os (add_row o xs),
  )

  -- Where all keys are there, nothing is added.
  pub each-add_row :
      (os xs : List A) → All (λ o. exists_where (same o) xs ≡ true) os → each add_row os xs ≡ xs
  each-add_row [] xs h = refl
  each-add_row (o ∷ os) xs (h, hs) = elim (Option-cases (first_where (same o) xs)) [
    | inl absent ↦ absurd (clash (first_where-none (same o) xs absent) h)
    | inr (r, found) ↦ rw found (each-add_row os xs hs)
  ]
    where
      clash : {b : Bool} → b ≡ false → b ≡ true → ⊥
      clash e d = cc

-- Assignments: `key o` is the test of the query, `set o` what is assigned.
module _ {O A : Type 0} (key : O → A → Bool) (set : O → A → A)
    (keeps : (o o' : O) (x : A) → key o (set o' x) ≡ key o x) where
  abbrev pub updates : List O → List A → List A
  updates = each (λ o. update_first (key o) (set o))

  -- The assignments to one row.
  abbrev pub settle : List O → A → A
  settle = each set

  abbrev matching : A → List O → List O
  matching x = select (λ o. key o x)

  abbrev others : A → List O → List O
  others x = select (λ o. not (key o x))

  matching-set : (o : O) (x : A) (os : List O) → matching (set o x) os ≡ matching x os
  matching-set o x os = ap (λ (f : O → Bool). select f os) (fun_ext (λ o'. keeps o' o x))

  others-set : (o : O) (x : A) (os : List O) → others (set o x) os ≡ others x os
  others-set o x os =
      ap (λ (f : O → Bool). select (λ o'. not (f o')) os) (fun_ext (λ o'. keeps o' o x))

  matching-settle : (ms : List O) (x : A) (os : List O) → matching (settle ms x) os ≡ matching x os
  matching-settle [] x os = refl
  matching-settle (m ∷ ms) x os = matching-settle ms (set m x) os ∙ matching-set m x os

  others-settle : (ms : List O) (x : A) (os : List O) → others (settle ms x) os ≡ others x os
  others-settle [] x os = refl
  others-settle (m ∷ ms) x os = others-settle ms (set m x) os ∙ others-set m x os

  updates_nil : (os : List O) → updates os [] ≡ []
  unfolding update_first
  updates_nil [] = refl
  updates_nil (o ∷ os) = updates_nil os

  -- The first row takes the assignments to its key, the rest take the others.
  updates_cons :
      (os : List O) (x : A) (xs : List A)
      → updates os (x ∷ xs) ≡ settle (matching x os) x ∷ updates (others x os) xs
  unfolding update_first
  updates_cons [] x xs = refl
  updates_cons (o ∷ os) x xs = elim (Bool-cases (key o x)) [
    | inl here ↦
        rw here (updates_cons os (set o x) xs ∙ rw (matching-set o x os, others-set o x os))
    | inr later ↦ rw later (updates_cons os x (update_first (key o) (set o) xs))
  ]

  -- The same assignments once more change nothing, if that is so for one row.
  pub updates_twice :
      ((ms : List O) (x : A) → settle ms (settle ms x) ≡ settle ms x)
      → (xs : List A) (os : List O) → updates os (updates os xs) ≡ updates os xs
  updates_twice once [] os = rw (updates_nil os) (updates_nil os)
  updates_twice once (x ∷ xs) os = rw (updates_cons os x xs) (
      updates_cons os (settle (matching x os) x) (updates (others x os) xs)
      ∙ rw (
        matching-settle (matching x os) x os,
        others-settle (matching x os) x os,
        once (matching x os) x,
        updates_twice once xs (others x os),
      ))

  pub exists_where-updates :
      (p : A → Bool)
      → ((o : O) (x : A) → p (set o x) ≡ p x)
      → (os : List O) (xs : List A) → exists_where p (updates os xs) ≡ exists_where p xs
  exists_where-updates p kept [] xs = refl
  exists_where-updates p kept (o ∷ os) xs =
      exists_where-updates p kept os (update_first (key o) (set o) xs)
      ∙ exists_where-update_first p (key o) (set o) (kept o) xs
