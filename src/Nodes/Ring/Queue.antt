-- ===== src/Nodes/Ring/Queue.antt =====
-- `RingBuffer` of batch/processor_Block_Sync_Status.py is a queue of a fixed length.
use ibet_wallet_api.Base.{
  ℕ, suc, ◌+◌, ◌%◌, ◌≡◌, refl, sym, ap, ◌∙◌, List, [], ◌∷◌, ◌++◌, length, length-append, append-nil,
  append_assoc, Option, none, some, arith,
}
use native.Mathlib.Nat.{mod-eq_of_lt, mod_self}
use ibet_wallet_api.Nodes.Ring.{
  RingBuffer, replicate, new_ring, item_at, put, set_item, advance, append, peek_oldest,
}

module _ {ℓ} {A : Type ℓ} where
  -- The buffer has the queue's values from `next` on, and then those before `next`.
  pub record IsQueue (r : RingBuffer A) (oldest : A) (rest : List A) : Type ℓ where
    pub before : List A
    pub after : List A
    pub buffer : r.buffer ≡ before ++ (oldest ∷ after)
    pub next : r.next ≡ length before
    pub values : rest ≡ after ++ before

  item_at-length :
      (xs : List A) (y : A) (ys : List A) → item_at (length xs) (xs ++ (y ∷ ys)) ≡ some y
  unfolding item_at
  item_at-length [] y ys = refl
  item_at-length (x ∷ xs) y ys = item_at-length xs y ys

  set_item-length :
      (xs : List A) (y z : A) (ys : List A)
      → set_item (length xs) z (xs ++ (y ∷ ys)) ≡ some (xs ++ (z ∷ ys))
  unfolding set_item
  set_item-length [] y z ys = refl
  set_item-length (x ∷ xs) y z ys = ap (put x) (set_item-length xs y z ys)

  pub peek_oldest-oldest :
      (r : RingBuffer A) (oldest : A) (rest : List A)
      → IsQueue r oldest rest
      → peek_oldest r ≡ some oldest
  unfolding peek_oldest
  peek_oldest-oldest r oldest rest h =
      ap (λ i. item_at i r.buffer) h.next
      ∙ ap (item_at (length h.before)) h.buffer
      ∙ item_at-length h.before oldest h.after

  -- The pointer after the last place, and after any other.
  wraps : (xs : List A) (z : A) → (length xs + 1) % length (xs ++ (z ∷ [])) ≡ 0
  wraps xs z = ap (λ n. (length xs + 1) % n) (length-append xs (z ∷ [])) ∙ mod_self (length xs + 1)

  steps :
      (xs : List A) (z y : A) (ys : List A)
      → (length xs + 1) % length (xs ++ (z ∷ y ∷ ys)) ≡ length (xs ++ (z ∷ []))
  steps xs z y ys =
      mod-eq_of_lt (omega (arith, length-append xs (z ∷ y ∷ ys)))
      ∙ omega (arith, length-append xs (z ∷ []))

  -- The queue that is left when the oldest value is dropped and one is added.
  abbrev pub Shifted : RingBuffer A → A → List A → Type ℓ
  Shifted r x [] = IsQueue r x []
  Shifted r x (y ∷ ys) = IsQueue r y (ys ++ (x ∷ []))

  -- What appending makes of a ring.
  abbrev pub IsShift : Option (RingBuffer A) → A → List A → Type ℓ
  IsShift o x rest = (r : RingBuffer A) × (o ≡ some r) × Shifted r x rest

  advance-IsShift :
      (before after : List A) (x : A)
      → IsShift (advance (length before) (some (before ++ (x ∷ after)))) x (after ++ before)
  advance-IsShift [] [] x =
      (_, refl, record { before = []; after = []; buffer = refl; next = mod_self 1; values = refl })
  advance-IsShift (y ∷ ys) [] x = (
    _,
    refl,
    record {
      before = [];
      after = ys ++ (x ∷ []);
      buffer = refl;
      next = wraps (y ∷ ys) x;
      values = sym (append-nil (ys ++ (x ∷ [])));
    },
  )
  advance-IsShift before (a ∷ rest) x = (
    _,
    refl,
    record {
      before = before ++ (x ∷ []);
      after = rest;
      buffer = sym (append_assoc before (x ∷ []) (a ∷ rest));
      next = steps before x a rest;
      values = append_assoc rest before (x ∷ []);
    },
  )

  -- Appending to a ring that holds a queue drops the oldest value and puts the new one last; the ring
  -- holds the queue that results, and `peek_oldest` gave the value that is dropped.
  pub append-IsShift :
      (r : RingBuffer A) (oldest : A) (rest : List A) (x : A)
      → IsQueue r oldest rest
      → (peek_oldest r ≡ some oldest) × IsShift (append x r) x rest
  unfolding append
  append-IsShift r oldest rest x h = (
    peek_oldest-oldest r oldest rest h,
    rw (h.next, h.buffer, h.values, set_item-length h.before oldest x h.after)
        (advance-IsShift h.before h.after x),
  )

  new_ring-IsQueue : (size : ℕ) (x : A) → IsQueue (new_ring (suc size) x) x (replicate size x)
  new_ring-IsQueue size x = record {
    before = [];
    after = replicate size x;
    buffer = refl;
    next = refl;
    values = sym (append-nil (replicate size x));
  }

  abbrev append_to : A → Option (RingBuffer A) → Option (RingBuffer A)
  append_to x none = none
  append_to x (some r) = append x r

  -- Values appended one after the other.
  abbrev pub append_all : List A → Option (RingBuffer A) → Option (RingBuffer A)
  append_all [] o = o
  append_all (x ∷ xs) o = append_all xs (append_to x o)

  abbrev Oldest : List A → RingBuffer A → A → List A → Type ℓ
  Oldest xs r oldest rest =
      (r' : RingBuffer A) × (append_all xs (some r) ≡ some r')
      × (peek_oldest r' ≡ item_at (length xs) (oldest ∷ rest ++ xs))

  append_all-Oldest :
      (xs : List A) (r : RingBuffer A) (oldest : A) (rest : List A)
      → IsQueue r oldest rest
      → Oldest xs r oldest rest
  unfolding item_at
  append_all-Oldest [] r oldest rest h = (r, refl, peek_oldest-oldest r oldest rest h)
  append_all-Oldest (x ∷ xs) r oldest [] h =
      let s = append-IsShift r oldest [] x h in
      let next = append_all-Oldest xs s.1.0 x [] s.1.2 in
      (next.0, ap (append_all xs) s.1.1 ∙ next.1, next.2)
  append_all-Oldest (x ∷ xs) r oldest (y ∷ ys) h =
      let s = append-IsShift r oldest (y ∷ ys) x h in
      let next = append_all-Oldest xs s.1.0 y (ys ++ (x ∷ [])) s.1.2 in
      (
        next.0,
        ap (append_all xs) s.1.1 ∙ next.1,
        next.2 ∙ ap (λ l. item_at (length xs) (y ∷ l)) (append_assoc ys (x ∷ []) xs),
      )

  -- However many values are appended to a new ring of a positive size, no append fails, and
  -- `peek_oldest` then gives the value that was appended as many calls ago as the size, or the default
  -- value if there were fewer calls.
  pub peek_oldest-append_all :
      (size : ℕ) (default : A) (xs : List A)
      → (r : RingBuffer A) × (append_all xs (some (new_ring (suc size) default)) ≡ some r)
        × (peek_oldest r ≡ item_at (length xs) (replicate (suc size) default ++ xs))
  peek_oldest-append_all size default xs =
      append_all-Oldest xs (new_ring (suc size) default) default (replicate size default)
        (new_ring-IsQueue size default)
