-- ===== src/Position/Accounts/Unique.antt =====
-- "Make temporary list unique" of batch/indexer_Position_Bond.py: sorting and grouping.
use ibet_wallet_api.Base.{
  ◌≡◌, refl, sym, true, false, List, [], ◌∷◌, All, Bool-cases, ◌⊎◌, inl, inr, arith,
}
use mathlib.Core.Path.{subst}
use ibet_wallet_api.Position.Accounts.{
  Holder, same_holder, holder_lt, insert_holder, sort_holders, group_from, group_holders,
  unique_holders,
}

-- The keys rise from each element to the next.
abbrev pub Rises : List Holder → Type 0
Rises [] = Unit {0}
Rises (x ∷ []) = Unit {0}
Rises (x ∷ (y ∷ ys)) = (holder_lt x y ≡ true) × Rises (y ∷ ys)

-- The keys do not fall.
abbrev IsSorted : List Holder → Type 0
IsSorted [] = Unit {0}
IsSorted (x ∷ []) = Unit {0}
IsSorted (x ∷ (y ∷ ys)) = (holder_lt y x ≡ false) × IsSorted (y ∷ ys)

same_holder-eq : (x y : Holder) → same_holder x y ≡ true → x ≡ y
same_holder-eq x y h =
    let a : x.token_address ≡ y.token_address = ground (arith, h) in
    let b : x.account_address ≡ y.account_address = ground (arith, h) in
    λ i. record { token_address = a i; account_address = b i }

holder_lt_asym : (x y : Holder) → holder_lt x y ≡ true → holder_lt y x ≡ false
holder_lt_asym x y h = ground (arith, h)

holder_lt_total :
    (x y : Holder) → holder_lt y x ≡ false → same_holder x y ≡ false → holder_lt x y ≡ true
holder_lt_total x y h k = ground (arith, h, k)

insert_holder-IsSorted :
    (x : Holder) (xs : List Holder) → IsSorted xs → IsSorted (insert_holder x xs)
insert_holder-IsSorted x [] s = tt
insert_holder-IsSorted x (y ∷ []) s = elim (Bool-cases (holder_lt y x)) [
  | inl below ↦ rw below (holder_lt_asym y x below, tt)
  | inr above ↦ rw above (above, tt)
]
insert_holder-IsSorted x (y ∷ (z ∷ zs)) (h, s) = elim (Bool-cases (holder_lt y x)) [
  | inl below ↦
      rw below (next (Bool-cases (holder_lt z x)) (insert_holder-IsSorted x (z ∷ zs) s) below)
  | inr above ↦ rw above (above, (h, s))
]
  where
    next :
        (holder_lt z x ≡ true) ⊎ (holder_lt z x ≡ false)
        → IsSorted (insert_holder x (z ∷ zs))
        → holder_lt y x ≡ true
        → IsSorted (y ∷ insert_holder x (z ∷ zs))
    next (inl low) k below = rw low (h, rw low at k)
    next (inr high) k below = rw high (holder_lt_asym y x below, rw high at k)

sort_holders-IsSorted : (xs : List Holder) → IsSorted (sort_holders xs)
sort_holders-IsSorted [] = tt
sort_holders-IsSorted (x ∷ xs) =
    insert_holder-IsSorted x (sort_holders xs) (sort_holders-IsSorted xs)

group_from-head :
    (x : Holder) (xs : List Holder) → (rest : List Holder) × (group_from x xs ≡ x ∷ rest)
group_from-head x [] = ([], refl)
group_from-head x (y ∷ ys) = elim (Bool-cases (same_holder x y)) [
  | inl same ↦ rw same (group_from-head x ys)
  | inr other ↦ rw other (_, refl)
]

-- What stands in front of a sorted list and what the groups start with.
group_from-Rises : (x : Holder) (xs : List Holder) → IsSorted (x ∷ xs) → Rises (group_from x xs)
group_from-Rises x [] s = tt
group_from-Rises x (y ∷ ys) (h, s) = elim (Bool-cases (same_holder x y)) [
  | inl same ↦
      rw same
        (group_from-Rises x ys (subst (λ z. IsSorted (z ∷ ys)) (sym (same_holder-eq x y same)) s))
  | inr other ↦ rw other (starts x y ys (holder_lt_total x y h other) (group_from-Rises y ys s))
]
  where
    starts :
        (x y : Holder) (ys : List Holder)
        → holder_lt x y ≡ true
        → Rises (group_from y ys)
        → Rises (x ∷ group_from y ys)
    starts x y ys lt r =
        let head = group_from-head y ys in
        subst (λ zs. Rises (x ∷ zs)) (sym head.1) (lt, subst Rises head.1 r)

module _ (Q : Holder → Type 0) where
  insert_holder-All : (x : Holder) (xs : List Holder) → Q x → All Q xs → All Q (insert_holder x xs)
  insert_holder-All x [] q qs = (q, tt)
  insert_holder-All x (y ∷ ys) q (r, rs) = elim (Bool-cases (holder_lt y x)) [
    | inl below ↦ rw below (r, insert_holder-All x ys q rs)
    | inr above ↦ rw above (q, (r, rs))
  ]

  All-insert_holder : (x : Holder) (xs : List Holder) → All Q (insert_holder x xs) → All Q (x ∷ xs)
  All-insert_holder x [] h = h
  All-insert_holder x (y ∷ ys) h = elim (Bool-cases (holder_lt y x)) [
    | inl below ↦
        let k = rw below at h in let rest = All-insert_holder x ys k.1 in (rest.0, (k.0, rest.1))
    | inr above ↦ rw above at h
  ]

  sort_holders-All : (xs : List Holder) → All Q xs → All Q (sort_holders xs)
  sort_holders-All [] h = tt
  sort_holders-All (x ∷ xs) (h, hs) =
      insert_holder-All x (sort_holders xs) h (sort_holders-All xs hs)

  All-sort_holders : (xs : List Holder) → All Q (sort_holders xs) → All Q xs
  All-sort_holders [] h = tt
  All-sort_holders (x ∷ xs) h =
      let k = All-insert_holder x (sort_holders xs) h in (k.0, All-sort_holders xs k.1)

  group_from-All : (x : Holder) (xs : List Holder) → Q x → All Q xs → All Q (group_from x xs)
  group_from-All x [] q qs = (q, tt)
  group_from-All x (y ∷ ys) q (r, rs) = elim (Bool-cases (same_holder x y)) [
    | inl same ↦ rw same (group_from-All x ys q rs)
    | inr other ↦ rw other (q, group_from-All y ys r rs)
  ]

  All-group_from : (x : Holder) (xs : List Holder) → All Q (group_from x xs) → All Q (x ∷ xs)
  All-group_from x [] h = h
  All-group_from x (y ∷ ys) h = elim (Bool-cases (same_holder x y)) [
    | inl same ↦
        let k = All-group_from x ys (rw same at h) in
        (k.0, (subst Q (same_holder-eq x y same) k.0, k.1))
    | inr other ↦ let k = rw other at h in (k.0, All-group_from y ys k.1)
  ]

group_holders-Rises : (xs : List Holder) → IsSorted xs → Rises (group_holders xs)
group_holders-Rises [] s = tt
group_holders-Rises (x ∷ xs) s = group_from-Rises x xs s

group_holders-All : (Q : Holder → Type 0) (xs : List Holder) → All Q xs → All Q (group_holders xs)
group_holders-All Q [] h = tt
group_holders-All Q (x ∷ xs) (h, hs) = group_from-All Q x xs h hs

All-group_holders : (Q : Holder → Type 0) (xs : List Holder) → All Q (group_holders xs) → All Q xs
All-group_holders Q [] h = tt
All-group_holders Q (x ∷ xs) h = All-group_from Q x xs h

-- The unique list rises strictly by token and account, so that it has nothing twice, and it has the
-- entries of the list: what holds of all of the ones holds of all of the others, for every predicate.
pub unique_holders-IsExact :
    (xs : List Holder)
    → Rises (unique_holders xs)
      × ((Q : Holder → Type 0)
          → (All Q (unique_holders xs) → All Q xs) × (All Q xs → All Q (unique_holders xs)))
unfolding unique_holders
unique_holders-IsExact xs = (
  group_holders-Rises (sort_holders xs) (sort_holders-IsSorted xs),
  λ Q. (
    (λ h. All-sort_holders Q xs (All-group_holders Q (sort_holders xs) h)),
    (λ h. group_holders-All Q (sort_holders xs) (sort_holders-All Q xs h)),
  ),
)
