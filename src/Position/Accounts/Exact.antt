-- ===== src/Position/Accounts/Exact.antt =====
-- The accounts that `remove_duplicate_event_by_token_account_desc` of
-- batch/indexer_Position_Bond.py returns.
use ibet_wallet_api.Base.{
  ◌≡◌, refl, inl, inr, true, false, not, Bool, List, [], ◌∷◌, ◌++◌, select, ◌==◌, ==_refl, All,
  All-append, All-select, Bool-cases, arith,
}
use mathlib.Core.Path.{subst}
use ibet_wallet_api.Chain.{Address, zero_address, Log}
use ibet_wallet_api.Position.Accounts.{
  contains, reversed, event_accounts, unseen, remove_duplicates,
}

module _ {A : Type 0} (Q : A → Type 0) where
  All-append-left : (xs ys : List A) → All Q (xs ++ ys) → All Q xs
  All-append-left [] ys h = tt
  All-append-left (x ∷ xs) ys (h, hs) = (h, All-append-left xs ys hs)

  All-append-right : (xs ys : List A) → All Q (xs ++ ys) → All Q ys
  All-append-right [] ys h = h
  All-append-right (x ∷ xs) ys (h, hs) = All-append-right xs ys hs

  All-reversed : (xs : List A) → All Q xs → All Q (reversed xs)
  All-reversed [] h = tt
  All-reversed (x ∷ xs) (h, hs) = All-append Q (reversed xs) (x ∷ []) (All-reversed xs hs) (h, tt)

  reversed-All : (xs : List A) → All Q (reversed xs) → All Q xs
  reversed-All [] h = tt
  reversed-All (x ∷ xs) h = (
    (All-append-right (reversed xs) (x ∷ []) h).0,
    reversed-All xs (All-append-left (reversed xs) (x ∷ []) h),
  )

  select-All : (p : A → Bool) (xs : List A) → All (λ x. p x ≡ true → Q x) xs → All Q (select p xs)
  select-All p [] h = tt
  select-All p (x ∷ xs) (h, hs) = elim (Bool-cases (p x)) [
    | inl pass ↦ rw pass (h pass, select-All p xs hs)
    | inr fail ↦ rw fail (select-All p xs hs)
  ]

module _ (Q : Address → Type 0) where
  contains-All : (a : Address) (xs : List Address) → contains a xs ≡ true → All Q xs → Q a
  contains-All a [] h q = cc
  contains-All a (x ∷ xs) h (q, qs) = elim (Bool-cases (x == a)) [
    | inl here ↦ subst Q (ground (arith, here)) q
    | inr later ↦ contains-All a xs (rw later at h) qs
  ]

  unseen-All : (seen xs : List Address) → All Q seen → All Q (unseen seen xs) → All Q xs
  unseen-All seen [] s h = tt
  unseen-All seen (x ∷ xs) s h = elim (Bool-cases (contains x seen)) [
    | inl met ↦ (contains-All x seen met s, unseen-All seen xs s (rw met at h))
    | inr new ↦ let k = rw new at h in (k.0, unseen-All (x ∷ seen) xs (k.0, s) k.1)
  ]

  All-unseen : (seen xs : List Address) → All Q xs → All Q (unseen seen xs)
  All-unseen seen [] h = tt
  All-unseen seen (x ∷ xs) (h, hs) = elim (Bool-cases (contains x seen)) [
    | inl met ↦ rw met (All-unseen seen xs hs)
    | inr new ↦ rw new (h, All-unseen (x ∷ seen) xs hs)
  ]

  -- Every account of an event that is not zero satisfies the predicate.
  abbrev pub EventsSatisfy : {A : Type 0} → (A → List Address) → List (Log A) → Type 0
  EventsSatisfy keys = All (λ e. All (λ a. not (a == zero_address) ≡ true → Q a) (keys e.args))

  event_accounts-All :
      {A : Type 0} (keys : A → List Address) (es : List (Log A))
      → All Q (event_accounts keys es)
      → EventsSatisfy keys es
  event_accounts-All keys [] h = tt
  event_accounts-All keys (e ∷ es) h =
      let own = select (λ a. not (a == zero_address)) (keys e.args) in
      (
        All-select Q (λ a. not (a == zero_address)) (keys e.args)
            (All-append-left Q own (event_accounts keys es) h),
        event_accounts-All keys es (All-append-right Q own (event_accounts keys es) h),
      )

  All-event_accounts :
      {A : Type 0} (keys : A → List Address) (es : List (Log A))
      → EventsSatisfy keys es
      → All Q (event_accounts keys es)
  All-event_accounts keys [] h = tt
  All-event_accounts keys (e ∷ es) (h, hs) =
      All-append Q (select (λ a. not (a == zero_address)) (keys e.args)) (event_accounts keys es)
        (select-All Q (λ a. not (a == zero_address)) (keys e.args) h)
        (All-event_accounts keys es hs)

-- No account stands in the list twice.
abbrev pub Distinct : List Address → Type 0
Distinct [] = Unit {0}
Distinct (x ∷ xs) = (contains x xs ≡ false) × Distinct xs

contains-append :
    (a : Address) (xs ys : List Address)
    → contains a xs ≡ false
    → contains a ys ≡ false
    → contains a (xs ++ ys) ≡ false
contains-append a [] ys h k = k
contains-append a (x ∷ xs) ys h k = elim (Bool-cases (x == a)) [
  | inl here ↦ cc (rw here at h)
  | inr later ↦ rw later (contains-append a xs ys (rw later at h) k)
]

contains-reversed :
    (a : Address) (xs : List Address) → contains a xs ≡ false → contains a (reversed xs) ≡ false
contains-reversed a [] h = refl
contains-reversed a (x ∷ xs) h = elim (Bool-cases (x == a)) [
  | inl here ↦ cc (rw here at h)
  | inr later ↦
      contains-append a (reversed xs) (x ∷ []) (contains-reversed a xs (rw later at h))
        (rw later refl)
]

Distinct-snoc :
    (xs : List Address) (a : Address)
    → Distinct xs
    → contains a xs ≡ false
    → Distinct (xs ++ (a ∷ []))
Distinct-snoc [] a d h = (refl, tt)
Distinct-snoc (x ∷ xs) a (d, ds) h = elim (Bool-cases (x == a)) [
  | inl here ↦ cc (rw here at h)
  | inr later ↦
      let other : (a == x) ≡ false = ground (arith, later) in
      (contains-append x xs (a ∷ []) d (rw other refl), Distinct-snoc xs a ds (rw later at h))
]

Distinct-reversed : (xs : List Address) → Distinct xs → Distinct (reversed xs)
Distinct-reversed [] d = tt
Distinct-reversed (x ∷ xs) (d, ds) =
    Distinct-snoc (reversed xs) x (Distinct-reversed xs ds) (contains-reversed x xs d)

unseen-contains :
    (a : Address) (seen xs : List Address)
    → contains a seen ≡ true
    → contains a (unseen seen xs) ≡ false
unseen-contains a seen [] h = refl
unseen-contains a seen (x ∷ xs) h = elim (Bool-cases (contains x seen)) [
  | inl met ↦ rw met (unseen-contains a seen xs h)
  | inr new ↦ rw new (elim (Bool-cases (x == a)) [
    | inl here ↦
        let same : x ≡ a = ground (arith, here) in
        cc (subst (λ y. contains y seen ≡ false) same new, h)
    | inr other ↦ rw other (unseen-contains a (x ∷ seen) xs (rw other h))
  ])
]

Distinct-unseen : (seen xs : List Address) → Distinct (unseen seen xs)
Distinct-unseen seen [] = tt
Distinct-unseen seen (x ∷ xs) = elim (Bool-cases (contains x seen)) [
  | inl met ↦ rw met (Distinct-unseen seen xs)
  | inr new ↦
      rw new (unseen-contains x (x ∷ seen) xs (rw (==_refl x) refl), Distinct-unseen (x ∷ seen) xs)
]

-- The accounts that are returned are those of the events but for the zero address: what holds of
-- the ones holds of the others, for every predicate. None is returned twice.
pub remove_duplicates-IsExact :
    {A : Type 0} (keys : A → List Address) (es : List (Log A))
    → Distinct (remove_duplicates keys es)
      × ((Q : Address → Type 0)
          → (All Q (remove_duplicates keys es) → EventsSatisfy Q keys es)
            × (EventsSatisfy Q keys es → All Q (remove_duplicates keys es)))
unfolding remove_duplicates
remove_duplicates-IsExact keys es =
    let accounts = event_accounts keys (reversed es) in
    (
      Distinct-reversed (unseen [] accounts) (Distinct-unseen [] accounts),
      λ Q. (
        (λ h. reversed-All _ es (
            event_accounts-All Q keys (reversed es)
              (unseen-All Q [] accounts tt (reversed-All Q (unseen [] accounts) h)))),
        (λ h. All-reversed Q (unseen [] accounts) (
            All-unseen Q [] accounts
              (All-event_accounts Q keys (reversed es) (All-reversed _ es h)))),
      ),
    )
