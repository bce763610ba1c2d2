-- ===== src/Holders/Collect/Checkpoint.antt =====
-- The query of `__load_checkpoint`: which earlier list it chooses, and what the book then holds.
use ibet_wallet_api.Base.{
  ℕ, ◌≤◌, ◌<◌, ◌≡◌, ◌≢◌, refl, Bool, true, false, List, [], ◌∷◌, Option, none, some, leb,
  Bool-cases, inl, inr, arith, select, All, some_inj, none_ne_some,
}
use mathlib.Core.Path.{subst}
use native.Mathlib.Nat.{le_trans, le_refl}
use ibet_wallet_api.Chain.{Address}
use ibet_wallet_api.Holders.Table.{
  TokenHoldersList, Db, done, BatchStatus, find_checkpoint, is_checkpoint, is_done, latest,
  later_of,
}

-- The list that is chosen passes the test of the query, and none that passes it is later.
abbrev pub IsLatest : (TokenHoldersList → Bool) → TokenHoldersList → List TokenHoldersList → Type 0
IsLatest p u ts = (p u ≡ true) × All (λ t. p t ≡ true → t.block_number ≤ u.block_number) ts

later_of-some : (t : TokenHoldersList) (o : Option TokenHoldersList) → later_of t o ≢ none
later_of-some t none e = cc
later_of-some t (some u) e = ground arith

latest-none :
    (p : TokenHoldersList → Bool) (ts : List TokenHoldersList)
    → latest (select p ts) ≡ none
    → All (λ t. p t ≡ false) ts
unfolding latest
latest-none p [] h = tt
latest-none p (t ∷ ts) h = elim (Bool-cases (p t)) [
  | inl in_ ↦ absurd (later_of-some t (latest (select p ts)) (rw in_ at h))
  | inr out ↦ (out, latest-none p ts (rw out at h))
]

none_earlier :
    (p : TokenHoldersList → Bool) (u : TokenHoldersList) (ts : List TokenHoldersList)
    → All (λ t. p t ≡ false) ts
    → All (λ t. p t ≡ true → t.block_number ≤ u.block_number) ts
none_earlier p u [] h = tt
none_earlier p u (t ∷ ts) (out, h) = (λ e. cc, none_earlier p u ts h)

All-le :
    (p : TokenHoldersList → Bool) (u v : TokenHoldersList) (ts : List TokenHoldersList)
    → u.block_number ≤ v.block_number
    → All (λ t. p t ≡ true → t.block_number ≤ u.block_number) ts
    → All (λ t. p t ≡ true → t.block_number ≤ v.block_number) ts
All-le p u v [] h k = tt
All-le p u v (t ∷ ts) h (k, ks) = (λ e. le_trans (k e) h, All-le p u v ts h ks)

IsLatest-later_of :
    (p : TokenHoldersList → Bool) (t : TokenHoldersList) (ts : List TokenHoldersList)
    → p t ≡ true
    → (o : Option TokenHoldersList) → latest (select p ts) ≡ o
    → ((v : TokenHoldersList) → o ≡ some v → IsLatest p v ts)
    → (u : TokenHoldersList) → later_of t o ≡ some u
    → IsLatest p u (t ∷ ts)
IsLatest-later_of p t ts passes none e ih u h =
    subst (λ w. IsLatest p w (t ∷ ts)) (some_inj h)
      (passes, (λ q. le_refl t.block_number, none_earlier p t ts (latest-none p ts e)))
IsLatest-later_of p t ts passes (some v) e ih u h =
    elim (Bool-cases (leb v.block_number t.block_number)) [
      | inl newer ↦
          subst (λ w. IsLatest p w (t ∷ ts)) (some_inj (rw newer at h))
            (passes, (λ q. le_refl t.block_number, All-le p v t ts (ground arith) (ih v refl).1))
      | inr older ↦
          subst (λ w. IsLatest p w (t ∷ ts)) (some_inj (rw older at h))
            ((ih v refl).0, (λ q. ground arith, (ih v refl).1))
    ]

latest-IsLatest :
    (p : TokenHoldersList → Bool) (ts : List TokenHoldersList) (u : TokenHoldersList)
    → latest (select p ts) ≡ some u
    → IsLatest p u ts
unfolding latest
latest-IsLatest p [] u h = absurd (none_ne_some h)
latest-IsLatest p (t ∷ ts) u h = elim (Bool-cases (p t)) [
  | inl in_ ↦
      IsLatest-later_of p t ts in_ (latest (select p ts)) refl (latest-IsLatest p ts) u
        (rw in_ at h)
  | inr out ↦ let rest = latest-IsLatest p ts u (rw out at h) in (rest.0, (λ e. cc, rest.1))
]

-- `__load_checkpoint` chooses a finished list of the token, of an earlier block than the target's,
-- and no other such list is of a later block.
pub find_checkpoint-IsLatest :
    (token : Address) (block_to : ℕ) (db : Db) (u : TokenHoldersList)
    → find_checkpoint token block_to db ≡ some u
    → (u.token_address ≡ token)
      × (u.block_number < block_to)
      × (u.batch_status ≡ done)
      × All
          (λ v. is_checkpoint token block_to v ≡ true → v.block_number ≤ u.block_number)
          db.token_holders_list
unfolding find_checkpoint
find_checkpoint-IsLatest token block_to db u h =
    let chosen = latest-IsLatest (is_checkpoint token block_to) db.token_holders_list u h in
    let facts = chosen_facts token block_to u chosen.0 in (facts.0, facts.1, facts.2, chosen.1)
  where
    status_done : (s : BatchStatus) → is_done s ≡ true → s ≡ done
    status_done s h = ground arith

    chosen_facts :
        (token : Address) (block_to : ℕ) (u : TokenHoldersList)
        → is_checkpoint token block_to u ≡ true
        → (u.token_address ≡ token) × (u.block_number < block_to) × (u.batch_status ≡ done)
    chosen_facts token block_to u h =
        (ground arith, ground arith, status_done u.batch_status (ground arith))
