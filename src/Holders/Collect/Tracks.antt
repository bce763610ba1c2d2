-- ===== src/Holders/Collect/Tracks.antt =====
-- The loop of `collect` over chunks of a million blocks: what holds of the book and of the table
-- between two calls of `__process_all`.
use ibet_wallet_api.Base.{
  ℕ, zero, suc, ◌+◌, ◌-◌, ◌≤◌, ◌<◌, ◌≡◌, refl, sym, ◌∙◌, ap, Bool, true, false, ◌&&◌, List, none,
  ◌==◌, ltb, ◌≤ℤ◌, ℤ, pos, ◌+ℤ◌, zero_+ℤ, Run, returned, Bool-cases, inl, inr, arith,
}
use mathlib.Core.Path.{subst}
use native.Mathlib.Numerals.{add-one}
use ibet_wallet_api.Chain.{Address}
use ibet_wallet_api.Holders.Book.{Column, balance, post}
use ibet_wallet_api.Holders.Events.{TokenType, Node}
use ibet_wallet_api.Holders.Process.Effect.{Ledger, Answers, token_info, range_moves}
use ibet_wallet_api.Holders.Process.Net.{net, net_split, balance-process_book}
use ibet_wallet_api.Holders.Table.{TokenHoldersList, TokenHolder, find_row, save_holders}
use ibet_wallet_api.Holders.Table.Rows.{row_balance, column_of, HasPrimaryKey}
use ibet_wallet_api.Holders.Table.Saved.{
  has_page, IsDict, IsDict-post, has_page-post, All-IsNonNegative, balance_no_page,
  find_row-save_holders_ne, find_row-save_holders-owner, row_balance-save_holders,
  HasPrimaryKey-save_holders,
}
use ibet_wallet_api.Holders.Collect.{Session, process_all, process_chunks}

-- The balance of an account after all blocks below a number.
unfoldable pub before : TokenType → Address → Ledger → Column → Address → ℕ → ℤ
before template token l c a zero = pos 0
before template token l c a (suc k) = net template token l c a 0 k

-- Blocks below `k`, then blocks `k` to `b`, are the blocks up to `b`.
pub before-net :
    (template : TokenType) (token : Address) (l : Ledger) (c : Column) (a : Address) (k b : ℕ)
    → k ≤ b + 1
    → before template token l c a k +ℤ net template token l c a k b ≡ net template token l c a 0 b
unfolding before
before-net template token l c a zero b h = zero_+ℤ (net template token l c a 0 b)
before-net template token l c a (suc k) b h =
    let split = net_split c a l 0 k b (omega arith) (omega arith) template token in
    sym (rw add-one at split)

module _ (owner : Address) (template : TokenType) (token : Address) (l : Ledger) where
  -- No account but the owner is in the red after the block.
  abbrev pub IsSolvent : ℕ → Type 0
  IsSolvent b =
      (c : Column) (a : Address) → (a == owner) ≡ false → pos 0 ≤ℤ net template token l c a 0 b

  -- A list holds the balances after the block, for every account but the owner.
  abbrev pub Holds : ℕ → ℕ → List TokenHolder → Type 0
  Holds id b rows =
      (c : Column) (a : Address)
      → (a == owner) ≡ false
      → row_balance c id a rows ≡ net template token l c a 0 b

module _ (n : Node) (exchange owner : Address) (template : TokenType) (l : Ledger)
    (t : TokenHoldersList) (serves : Answers n exchange t.token_address l)
    (start : List TokenHolder) where
  -- What holds when all blocks below `next` are booked.
  pub record Tracks (next : ℕ) (s : Session) : Type 0 where
    pub dict : IsDict s.balance_book
    pub key : HasPrimaryKey s.token_holder
    pub booked :
        (c : Column) (a : Address)
        → (a == owner) ≡ false
        → balance c a s.balance_book ≡ before template t.token_address l c a next
    pub paged :
        (a : Address) → has_page a s.balance_book ≡ false → find_row t.id a s.token_holder ≡ none
    pub no_owner : find_row t.id owner s.token_holder ≡ none
    pub others :
        (id : ℕ) (a : Address)
        → (t.id == id) ≡ false
        → find_row id a s.token_holder ≡ find_row id a start

  -- One call of `__process_all`, written out.
  after : ℕ → ℕ → Session → Session
  after a b s =
      let book = post (range_moves template t.token_address l a b) s.balance_book in
      record { balance_book = book; token_holder = save_holders t.id owner book s.token_holder }

  process_all-after :
      (a b : ℕ) (s : Session)
      → process_all n (token_info exchange owner template) t a b s ≡ returned (after a b s)
  unfolding process_all after
  process_all-after a b s = rw (
      (balance-process_book n exchange t.token_address owner template l serves a b
        s.balance_book).0)

  false_and : (b : Bool) {c : Bool} → c ≡ false → (b && c) ≡ false
  false_and b e = ground arith

  and_false : (b : Bool) {c : Bool} → c ≡ false → (c && b) ≡ false
  and_false b e = ground arith

  has_page_before :
      (a : Address) (x y : ℕ) (s : Session)
      → has_page a (after x y s).balance_book ≡ false
      → has_page a s.balance_book ≡ false
  unfolding after
  has_page_before a x y s h = elim (Bool-cases (has_page a s.balance_book)) [
    | inr absent ↦ absent
    | inl present ↦
        cc (has_page-post a (range_moves template t.token_address l x y) s.balance_book present, h)
  ]

  -- `__process_all` on the next blocks keeps what holds.
  Tracks-after : (a b : ℕ) (s : Session) → a ≤ b + 1 → Tracks a s → Tracks (suc b) (after a b s)
  unfolding after before
  Tracks-after a b s h k =
      let book = post (range_moves template t.token_address l a b) s.balance_book in
      record {
        dict = IsDict-post (range_moves template t.token_address l a b) s.balance_book k.dict;
        key = HasPrimaryKey-save_holders t.id owner book s.token_holder k.key;
        booked = λ c acct e.
            (balance-process_book n exchange t.token_address owner template l serves a b
                s.balance_book).1
              c acct
            ∙ ap (λ x. x +ℤ net template t.token_address l c acct a b) (k.booked c acct e)
            ∙ before-net template t.token_address l c acct a b h;
        paged = λ acct e.
            find_row-save_holders_ne t.id owner t.id acct book s.token_holder
              (false_and (t.id == t.id) e)
            ∙ k.paged acct (has_page_before acct a b s e);
        no_owner = find_row-save_holders-owner t.id owner t.id book s.token_holder ∙ k.no_owner;
        others = λ id acct e.
            find_row-save_holders_ne t.id owner id acct book s.token_holder
              (and_false (has_page acct book) e)
            ∙ k.others id acct e;
      }

  Holds-saved :
      (a b : ℕ) (s : Session)
      → Tracks (suc b) (after a b s)
      → IsSolvent owner template t.token_address l b
      → (c : Column) (acct : Address) → (acct == owner) ≡ false
      → has_page acct (after a b s).balance_book ≡ true
      → row_balance c t.id acct (after a b s).token_holder
        ≡ balance c acct (after a b s).balance_book
  unfolding before after
  Holds-saved a b s next solvent c acct e present =
      row_balance-save_holders t.id owner c acct
        (post (range_moves template t.token_address l a b) s.balance_book) s.token_holder next.dict
        (All-IsNonNegative owner (post (range_moves template t.token_address l a b) s.balance_book)
          next.dict (λ c' a' e'. rw (next.booked c' a' e') (solvent c' a' e')))
        e present

  Holds-after :
      (a b : ℕ) (s : Session)
      → a ≤ b + 1
      → Tracks a s
      → IsSolvent owner template t.token_address l b
      → Holds owner template t.token_address l t.id b (after a b s).token_holder
  unfolding before
  Holds-after a b s h k solvent c acct e =
      let next = Tracks-after a b s h k in
      elim (Bool-cases (has_page acct (after a b s).balance_book)) [
        | inl present ↦ Holds-saved a b s next solvent c acct e present ∙ next.booked c acct e
        | inr absent ↦
            ap (column_of c) (next.paged acct absent)
            ∙ sym (balance_no_page c acct (after a b s).balance_book absent)
            ∙ next.booked c acct e
      ]

  chunk_more :
      (fuel a b : ℕ) (s : Session)
      → ltb b t.block_number ≡ true
      → process_chunks n (token_info exchange owner template) t (suc fuel) a b s
        ≡ process_chunks n
            (token_info exchange owner template)
            t
            fuel
            (a + 1000000)
            (b + 1000000)
            (after a b s)
  unfolding process_chunks
  chunk_more fuel a b s more = rw (more, process_all-after a b s, process_chunks)

  chunk_last :
      (fuel a b : ℕ) (s : Session)
      → ltb b t.block_number ≡ false
      → process_chunks n (token_info exchange owner template) t (suc fuel) a b s
        ≡ returned (after a t.block_number s)
  unfolding process_chunks
  chunk_last fuel a b s last = rw (last, process_all-after a t.block_number s, process_chunks)

  -- What the loop returns.
  abbrev pub Gathers : Run Session → Type 0
  Gathers r =
      (s : Session) × (r ≡ returned s)
      × Tracks (suc t.block_number) s
      × Holds owner template t.token_address l t.id t.block_number s.token_holder

  -- The loop ends, and all blocks up to the target's are booked and saved.
  pub process_chunks-Gathers :
      (fuel a b : ℕ) (s : Session)
      → b ≡ a + 999999
      → t.block_number - b < fuel
      → a ≤ t.block_number + 1
      → IsSolvent owner template t.token_address l t.block_number
      → Tracks a s
      → Gathers (process_chunks n (token_info exchange owner template) t fuel a b s)
  process_chunks-Gathers zero a b s e f h solvent k = absurd (omega arith)
  process_chunks-Gathers (suc fuel) a b s e f h solvent k =
      elim (Bool-cases (ltb b t.block_number)) [
        | inl more ↦ rw (chunk_more fuel a b s more) (
            process_chunks-Gathers fuel (a + 1000000) (b + 1000000) (after a b s) (omega arith)
              (ground arith) (ground arith) solvent
              (subst (λ next. Tracks next (after a b s)) (omega arith)
                (Tracks-after a b s (omega arith) k)))
        | inr last ↦ rw (chunk_last fuel a b s last) (
          after a t.block_number s,
          refl,
          Tracks-after a t.block_number s h k,
          Holds-after a t.block_number s h k solvent,
        )
      ]
