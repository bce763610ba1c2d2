-- ===== src/Approval/Sync/Numbers.antt =====
-- The table `idx_transfer_approval_block_number` after `__set_idx_transfer_approval_block_number`.
use ibet_wallet_api.Base.{
  ℕ, ◌+◌, ◌≡◌, ◌≢◌, refl, ap, ◌∙◌, ◌⊎◌, true, false, ◌&&◌, List, [], ◌∷◌, Option, none, some,
  if◌then◌else◌, ◌==◌, ==_refl, first_where, update_first, Bool-cases, inl, inr, arith,
}
use mathlib.Core.Path.{subst}
use ibet_wallet_api.Chain.{Address}
use ibet_wallet_api.Approval.Table.{BlockNumber, Db, is_target}
use ibet_wallet_api.Approval.Sink.Machine.{first_where-append, first_where-append-apart}
use ibet_wallet_api.Approval.Targets.{TargetToken}
use ibet_wallet_api.Approval.Sync.{set_found, set_block_numbers, next_after, next_block}

set_latest : ℕ → BlockNumber → BlockNumber
set_latest n r = record r { latest_block_number = n }

module _ (n : ℕ) (t u : Address) where
  next_after-update_same :
      (rows : List BlockNumber)
      → first_where (is_target t u) rows ≢ none
      → next_after (
          first_where
            (is_target t u)
            (update_first (is_target t u) (λ r. record r { latest_block_number = n }) rows))
        ≡ n + 1
  unfolding first_where update_first
  next_after-update_same [] h = absurd (h refl)
  next_after-update_same (r ∷ rows) h = elim (Bool-cases (is_target t u r)) [
    | inl here ↦ rw here (rw here refl)
    | inr later ↦ rw later (rw later (next_after-update_same rows (rw later at h)))
  ]

  first_where-update_other :
      (token x : Address) (rows : List BlockNumber)
      → (t == token && u == x) ≡ false
      → first_where
          (is_target token x)
          (update_first (is_target t u) (λ r. record r { latest_block_number = n }) rows)
        ≡ first_where (is_target token x) rows
  unfolding first_where update_first
  first_where-update_other token x [] d = refl
  first_where-update_other token x (r ∷ rows) d = elim (Bool-cases (is_target t u r)) [
    | inl here ↦ rw here (rw (apart here) refl)
    | inr later ↦ rw later (
        ap (λ (o : Option BlockNumber). if is_target token x r then some r else o)
          (first_where-update_other token x rows d))
  ]
    where
      apart : is_target t u r ≡ true → is_target token x r ≡ false
      apart here = ground (arith, here, d)

-- The pair is that of a target of the list.
abbrev pub IsTarget : Address → Address → List TargetToken → Type 0
IsTarget token x [] = ⊥
IsTarget token x (t ∷ ts) =
    ((t.token_address ≡ token) × (t.exchange_address ≡ x)) ⊎ IsTarget token x ts

module _ (n : ℕ) (t : TargetToken) (db : Db) where
  set_found-next_same :
      (o : Option BlockNumber)
      → first_where (is_target t.token_address t.exchange_address) db.block_number ≡ o
      → next_block t.token_address t.exchange_address (set_found t n db o) ≡ n + 1
  unfolding next_block
  set_found-next_same none e =
      rw (first_where-append (is_target t.token_address t.exchange_address) db.block_number _ e)
        (rw (==_refl t.token_address, ==_refl t.exchange_address) refl)
  set_found-next_same (some r) e =
      next_after-update_same n t.token_address t.exchange_address db.block_number (λ d. cc)

  set_found-next_other :
      (o : Option BlockNumber) (token x : Address)
      → (t.token_address == token && t.exchange_address == x) ≡ false
      → next_block token x (set_found t n db o) ≡ next_block token x db
  unfolding next_block
  set_found-next_other none token x d =
      ap next_after (first_where-append-apart (is_target token x) db.block_number _ d)
  set_found-next_other (some r) token x d =
      ap next_after
        (first_where-update_other n t.token_address t.exchange_address token x db.block_number d)

  set_found-rows :
      (o : Option BlockNumber) → (set_found t n db o).transfer_approval ≡ db.transfer_approval
  set_found-rows none = refl
  set_found-rows (some r) = refl

  abbrev found : Option BlockNumber
  found = first_where (is_target t.token_address t.exchange_address) db.block_number

  set_found-next :
      (token x : Address)
      → (next_block token x (set_found t n db found) ≡ next_block token x db)
        ⊎ (((t.token_address ≡ token) × (t.exchange_address ≡ x))
            × (next_block token x (set_found t n db found) ≡ n + 1))
  set_found-next token x = elim (Bool-cases (t.token_address == token && t.exchange_address == x)) [
    | inl own ↦
        let a : t.token_address ≡ token = ground (arith, own) in
        let b : t.exchange_address ≡ x = ground (arith, own) in
        inr (
          (a, b),
          subst (λ (p : Address × Address). next_block p.0 p.1 (set_found t n db found) ≡ n + 1)
              (λ i. (a i, b i)) (set_found-next_same found refl),
        )
    | inr other ↦ inl (set_found-next_other found token x other)
  ]

pub set_block_numbers-rows :
    (n : ℕ) (ts : List TargetToken) (db : Db)
    → (set_block_numbers ts n db).transfer_approval ≡ db.transfer_approval
unfolding set_block_numbers
set_block_numbers-rows n [] db = refl
set_block_numbers-rows n (t ∷ ts) db =
    set_block_numbers-rows n ts (set_found t n db (found n t db))
    ∙ set_found-rows n t db (found n t db)

-- A number is kept, or it is that of a target and the new one.
pub set_block_numbers-next :
    (n : ℕ) (token x : Address) (ts : List TargetToken) (db : Db)
    → (next_block token x (set_block_numbers ts n db) ≡ next_block token x db)
      ⊎ (IsTarget token x ts × (next_block token x (set_block_numbers ts n db) ≡ n + 1))
unfolding set_block_numbers
set_block_numbers-next n token x [] db = inl refl
set_block_numbers-next n token x (t ∷ ts) db =
    elim (set_block_numbers-next n token x ts (set_found t n db (found n t db))) [
      | inl kept ↦ elim (set_found-next n t db token x) [
        | inl same ↦ inl (kept ∙ same)
        | inr (own, new) ↦ inr (inl own, kept ∙ new)
      ]
      | inr (later, new) ↦ inr (inr later, new)
    ]
