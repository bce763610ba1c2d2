-- ===== src/Holders/Process/Net.antt =====
-- The sums that the balance book is measured by: what all events of a range of blocks add to one
-- account, and that `__process_all` of batch/indexer_Token_Holders.py adds it.
use ibet_wallet_api.Base.{
  ℕ, ◌+◌, ◌≤◌, ◌≡◌, refl, ◌∙◌, ap, sym, Bool, true, false, List, [], ◌∷◌, ◌++◌, map, if◌then◌else◌,
  ℤ, pos, ◌+ℤ◌, returned, select, All, All-append, +ℤ_swap, zero_+ℤ, +ℤ_assoc, +ℤ_zero, Bool-cases,
  inl, inr,
}
use ibet_wallet_api.Chain.{
  Address, Log, in_range, total, total-append, total_split, sorted, total-sorted,
}
use ibet_wallet_api.Holders.Book.{Book, Column, Move, share, post, balance, balance-post}
use ibet_wallet_api.Holders.Events.{TransferArgs, HolderChangedArgs, TokenType, Node}
use ibet_wallet_api.Holders.Process.{as_transfer, of_token, process_book, has_locks, is_coupon}
use ibet_wallet_api.Holders.Process.Moves.{
  transfer_moves, issue_moves, redeem_moves, consume_moves, lock_moves, unlock_moves,
  change_locked_moves, all_moves, total-all_moves,
}
use ibet_wallet_api.Holders.Process.Effect.{
  Ledger, Answers, process_book-Posts, token_info, transfers, lock_family, coupon_family,
  range_moves,
}

-- What one kind of event adds to an account in a range of blocks.
abbrev pub effect : {A : Type 0} → Column → Address → (Log A → List Move) → List (Log A) → ℕ → ℕ → ℤ
effect c acct moves history a b = total (λ e. total (share c acct) (moves e)) (in_range a b history)

-- A `HolderChanged` event counts as a transfer if it is about the token.
abbrev pub holder_changed_moves : (Address → Bool) → Address → Log HolderChangedArgs → List Move
holder_changed_moves is_contract token e =
    if of_token token e then transfer_moves is_contract (as_transfer e) else []

abbrev lock_effects : Bool → Column → Address → Ledger → List (ℕ → ℕ → ℤ)
lock_effects false c acct l = []
lock_effects true c acct l =
    effect c acct lock_moves l.lock
    ∷ effect c acct lock_moves l.force_lock
    ∷ effect c acct unlock_moves l.unlock
    ∷ effect c acct unlock_moves l.force_unlock
    ∷ effect c acct change_locked_moves l.change_locked
    ∷ []

abbrev coupon_effects : Bool → Column → Address → Ledger → List (ℕ → ℕ → ℤ)
coupon_effects false c acct l = []
coupon_effects true c acct l = effect c acct consume_moves l.consume ∷ []

abbrev effects : TokenType → Address → Column → Address → Ledger → List (ℕ → ℕ → ℤ)
effects template token c acct l =
    effect c acct (holder_changed_moves l.is_contract token) l.holder_changed
    ∷ effect c acct (transfer_moves l.is_contract) l.transfer
    ∷ effect c acct issue_moves l.issue
    ∷ effect c acct redeem_moves l.redeem
    ∷ (lock_effects (has_locks template) c acct l ++ coupon_effects (is_coupon template) c acct l)

-- What all events of a range of blocks add to an account: the sum over the kinds of event.
unfoldable pub net : TokenType → Address → Ledger → Column → Address → ℕ → ℕ → ℤ
net template token l c acct a b = total (λ f. f a b) (effects template token c acct l)

module _ {A : Type 0} (c : Column) (acct : Address) (moves : Log A → List Move) where
  effect_lem :
      (history : List (Log A)) (a b : ℕ)
      → total (share c acct) (all_moves moves (in_range a b history))
        ≡ effect c acct moves history a b
  effect_lem history a b = total-all_moves c acct moves (in_range a b history)

-- The transfers of both contracts, merged and sorted, add what the two kinds add.
module _ (c : Column) (acct token : Address) (is_contract : Address → Bool) where
  abbrev of_transfer : Log TransferArgs → ℤ
  of_transfer e = total (share c acct) (transfer_moves is_contract e)

  total-as_transfer :
      (es : List (Log HolderChangedArgs))
      → total of_transfer (map as_transfer (select (of_token token) es))
        ≡ total (λ e. total (share c acct) (holder_changed_moves is_contract token e)) es
  total-as_transfer [] = refl
  total-as_transfer (e ∷ es) = elim (Bool-cases (of_token token e)) [
    | inl mine ↦ rw mine (ap (λ t. of_transfer (as_transfer e) +ℤ t) (total-as_transfer es))
    | inr other ↦ rw other (total-as_transfer es ∙ sym (zero_+ℤ _))
  ]

  total-transfers :
      (l : Ledger) (a b : ℕ)
      → l.is_contract ≡ is_contract
      → total (share c acct) (all_moves (transfer_moves is_contract) (transfers token l a b))
        ≡ effect c acct (holder_changed_moves is_contract token) l.holder_changed a b
          +ℤ effect c acct (transfer_moves is_contract) l.transfer a b
  total-transfers l a b same =
      let changed = map as_transfer (select (of_token token) (in_range a b l.holder_changed)) in
      let moved = in_range a b l.transfer in
      total-all_moves c acct (transfer_moves is_contract) (sorted (changed ++ moved))
      ∙ total-sorted of_transfer (changed ++ moved)
      ∙ total-append of_transfer changed moved
      ∙ ap (λ t. t +ℤ total of_transfer moved) (total-as_transfer (in_range a b l.holder_changed))

abbrev at_range : ℕ → ℕ → (ℕ → ℕ → ℤ) → ℤ
at_range a b f = f a b

module _ (c : Column) (acct : Address) (l : Ledger) (a b : ℕ) where
  total-lock_family :
      (locks : Bool)
      → total (share c acct) (lock_family locks l a b)
        ≡ total (at_range a b) (lock_effects locks c acct l)
  total-lock_family false = refl
  total-lock_family true = simp (total-append, total-all_moves, +ℤ_zero)

  total-coupon_family :
      (coupon : Bool)
      → total (share c acct) (coupon_family coupon l a b)
        ≡ total (at_range a b) (coupon_effects coupon c acct l)
  total-coupon_family false = refl
  total-coupon_family true = simp (total-all_moves, +ℤ_zero)

  -- What the postings of a range add to an account is the sum over the kinds of event.
  pub total-range_moves :
      (template : TokenType) (token : Address)
      → total (share c acct) (range_moves template token l a b) ≡ net template token l c acct a b
  unfolding net
  total-range_moves template token = simp total-append (
      rw
        (
          total-transfers c acct token l.is_contract l a b refl,
          total-lock_family (has_locks template),
          total-coupon_family (is_coupon template),
        )
        (simp (total-all_moves, +ℤ_assoc)))

-- A sum of functions of a range that each split is a function of a range that splits.
abbrev Splits : ℕ → ℕ → ℕ → (ℕ → ℕ → ℤ) → Type 0
Splits a b c f = f a c ≡ f a b +ℤ f (b + 1) c

total-Splits :
    (a b c : ℕ) (fs : List (ℕ → ℕ → ℤ))
    → All (Splits a b c) fs
    → total (at_range a c) fs ≡ total (at_range a b) fs +ℤ total (at_range (b + 1) c) fs
total-Splits a b c [] h = sym (+ℤ_zero (pos 0))
total-Splits a b c (f ∷ fs) (h, hs) =
    rw (h, total-Splits a b c fs hs)
      (+ℤ_swap (f a b) (f (b + 1) c) (total (at_range a b) fs) (total (at_range (b + 1) c) fs))

module _ (col : Column) (acct : Address) (l : Ledger) (a b c : ℕ) (h : a ≤ b + 1) (k : b ≤ c) where
  effect-Splits :
      {A : Type 0} (moves : Log A → List Move) (history : List (Log A))
      → Splits a b c (effect col acct moves history)
  effect-Splits moves history =
      total_split (λ e. total (share col acct) (moves e)) a b c history h k

  lock_effects-Splits : (locks : Bool) → All (Splits a b c) (lock_effects locks col acct l)
  lock_effects-Splits false = tt
  lock_effects-Splits true = (
    effect-Splits lock_moves l.lock,
    (
      effect-Splits lock_moves l.force_lock,
      (
        effect-Splits unlock_moves l.unlock,
        (
          effect-Splits unlock_moves l.force_unlock,
          (effect-Splits change_locked_moves l.change_locked, tt),
        ),
      ),
    ),
  )

  coupon_effects-Splits : (coupon : Bool) → All (Splits a b c) (coupon_effects coupon col acct l)
  coupon_effects-Splits false = tt
  coupon_effects-Splits true = (effect-Splits consume_moves l.consume, tt)

  -- What the events of a range add is what those of its two parts add.
  pub net_split :
      (template : TokenType) (token : Address)
      → net template token l col acct a c
        ≡ net template token l col acct a b +ℤ net template token l col acct (b + 1) c
  unfolding net
  net_split template token = total-Splits a b c (effects template token col acct l) (
    effect-Splits (holder_changed_moves l.is_contract token) l.holder_changed,
    (
      effect-Splits (transfer_moves l.is_contract) l.transfer,
      (
        effect-Splits issue_moves l.issue,
        (
          effect-Splits redeem_moves l.redeem,
          All-append (Splits a b c) (lock_effects (has_locks template) col acct l)
              (coupon_effects (is_coupon template) col acct l)
              (lock_effects-Splits (has_locks template))
              (coupon_effects-Splits (is_coupon template)),
        ),
      ),
    ),
  )

-- `__process_all` returns, with every balance raised by what the events of the range add to it.
pub balance-process_book :
    (n : Node) (exchange token owner : Address) (template : TokenType) (l : Ledger)
    → Answers n exchange token l
    → (a b : ℕ) (book : Book)
    → let book' = post (range_moves template token l a b) book in
      (process_book n (token_info exchange owner template) token a b book ≡ returned book')
      × ((c : Column) (acct : Address)
          → balance c acct book' ≡ balance c acct book +ℤ net template token l c acct a b)
balance-process_book n exchange token owner template l serves a b book = (
  (process_book-Posts n exchange token l serves a b owner template).posts book,
  λ c acct.
      balance-post c acct (range_moves template token l a b) book
      ∙ ap (λ t. balance c acct book +ℤ t) (total-range_moves c acct l a b template token),
)
