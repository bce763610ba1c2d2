-- ===== src/Nodes/Ring.antt =====
-- `RingBuffer` of batch/processor_Block_Sync_Status.py.
pub mod Queue
use ibet_wallet_api.Base.{ℕ, zero, suc, ◌+◌, ◌%◌, List, [], ◌∷◌, length, Option, none, some}

pub record RingBuffer {ℓ} (A : Type ℓ) : Type ℓ where
  pub next : ℕ
  pub buffer : List A

module _ {ℓ} {A : Type ℓ} where
  -- `[default] * size`
  abbrev pub replicate : ℕ → A → List A
  replicate zero x = []
  replicate (suc n) x = x ∷ replicate n x

  -- `__init__`
  abbrev pub new_ring : ℕ → A → RingBuffer A
  new_ring size default = record { next = 0; buffer = replicate size default }

  -- `xs[i]`; `none` stands for IndexError.
  unfoldable pub item_at : ℕ → List A → Option A
  item_at i [] = none
  item_at zero (x ∷ xs) = some x
  item_at (suc i) (x ∷ xs) = item_at i xs

  abbrev pub put : A → Option (List A) → Option (List A)
  put x none = none
  put x (some xs) = some (x ∷ xs)

  -- `xs[i] = data`
  unfoldable pub set_item : ℕ → A → List A → Option (List A)
  set_item i data_ [] = none
  set_item zero data_ (x ∷ xs) = some (data_ ∷ xs)
  set_item (suc i) data_ (x ∷ xs) = put x (set_item i data_ xs)

  abbrev pub advance : ℕ → Option (List A) → Option (RingBuffer A)
  advance next none = none
  advance next (some xs) = some (record { next = (next + 1) % length xs; buffer = xs })

  -- `append`
  unfoldable pub append : A → RingBuffer A → Option (RingBuffer A)
  append data_ r = advance r.next (set_item r.next data_ r.buffer)

  -- `peek_oldest`
  unfoldable pub peek_oldest : RingBuffer A → Option A
  peek_oldest r = item_at r.next r.buffer
