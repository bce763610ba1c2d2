-- ===== src/Eth/NoWait/Results.antt =====
-- What the response of `send_raw_transaction_no_wait` says of each transaction.
use ibet_wallet_api.Base.{
  ℕ, zero, suc, ◌+◌, ◌≡◌, leb, ◌⊎◌, refl, ap, some_inj, inl, inr, Bool, true, false, ◌||◌, List, [],
  ◌∷◌, Option, none, some, Bool-cases, arith,
}
use ibet_wallet_api.Chain.{Address}
use ibet_wallet_api.Eth.NoWait.{
  Sent, sent, nonce_too_low, already_known, other_rpc_error, other_error, World, Entry, Response,
  ok, suspended_token, internal_error, TokenStatus, no_template, no_contract, active, suspended,
  refuses, is_suspended_for, has_suspended, wait_on, wait_pool, status_of, hash_of, refused,
  entry_to, send_all, after_pool, send_raw_transaction_no_wait,
}

module _ (w : World) where
  -- The transaction may be sent: it can be decoded, and is for an executable or a default contract.
  abbrev pub IsAllowed : ℕ → Type 0
  IsAllowed raw =
      (to : Address) × (w.decode raw ≡ some to)
      × ((w.is_executable to || w.is_default_contract to) ≡ true)

  -- An entry with a hash, or with a status that is not 0, is of a transaction that may be sent; with
  -- a hash, the node has answered with it and the status is 1.
  pub record IsEntry (i raw : ℕ) (e : Entry) : Type 0 where
    pub numbered : e.id ≡ i + 1
    pub allowed : (e.status ≡ 0) ⊎ IsAllowed raw
    pub hashed :
        (hash : ℕ)
        → e.transaction_hash ≡ some hash
        → (w.send i raw ≡ sent hash) × (e.status ≡ 1) × IsAllowed raw
    pub succeeded : e.status ≡ 1 → (hash : ℕ) × (e.transaction_hash ≡ some hash)

  -- One entry for each transaction, in order, numbered from `i + 1`.
  abbrev pub AreEntries : ℕ → List ℕ → List Entry → Type 0
  AreEntries i [] [] = Unit
  AreEntries i [] (e ∷ es) = ⊥
  AreEntries i (raw ∷ raws) [] = ⊥
  AreEntries i (raw ∷ raws) (e ∷ es) = IsEntry i raw e × AreEntries (suc i) raws es

  refused-IsEntry : (i raw : ℕ) → IsEntry i raw (refused w i)
  refused-IsEntry i raw = record {
    numbered = refl;
    allowed = inl refl;
    hashed = λ hash e. cc;
    succeeded = λ e. absurd (omega (arith, e));
  }

  sent-hashed :
      (s : Sent) (hash : ℕ) → hash_of w s ≡ some hash → (s ≡ sent hash) × (status_of w s ≡ 1)
  sent-hashed (sent h) hash e = (ap sent (some_inj e), refl)
  sent-hashed nonce_too_low hash e = cc
  sent-hashed already_known hash e = cc
  sent-hashed other_rpc_error hash e = cc
  sent-hashed other_error hash e = cc

  sent-succeeded : (s : Sent) → status_of w s ≡ 1 → (hash : ℕ) × (hash_of w s ≡ some hash)
  sent-succeeded (sent h) e = (h, refl)
  sent-succeeded nonce_too_low e = absurd (omega (arith, e))
  sent-succeeded already_known e = absurd (omega (arith, e))
  sent-succeeded other_rpc_error e = absurd (omega (arith, e))
  sent-succeeded other_error e = absurd (omega (arith, e))

  entry_to-IsEntry :
      (i raw : ℕ) (o : Option Address) → w.decode raw ≡ o → IsEntry i raw (entry_to w i raw o)
  entry_to-IsEntry i raw none d = refused-IsEntry i raw
  entry_to-IsEntry i raw (some to) d =
      elim (Bool-cases (w.is_executable to || w.is_default_contract to)) [
        | inl allowed ↦ rw allowed (record {
          numbered = refl;
          allowed = inr (to, d, allowed);
          hashed =
              λ hash e. let s = sent-hashed (w.send i raw) hash e in (s.0, s.1, (to, d, allowed));
          succeeded = λ e. sent-succeeded (w.send i raw) e;
        })
        | inr not_allowed ↦ rw not_allowed (refused-IsEntry i raw)
      ]

  send_all-AreEntries : (i : ℕ) (raws : List ℕ) → AreEntries i raws (send_all w i raws)
  unfolding send_all
  send_all-AreEntries i [] = tt
  send_all-AreEntries i (raw ∷ raws) =
      (entry_to-IsEntry i raw (w.decode raw) refl, send_all-AreEntries (suc i) raws)

  -- The transaction is for a listed token that is suspended.
  abbrev pub IsSuspended : ℕ → Type 0
  IsSuspended raw =
      (to : Address) × (w.decode raw ≡ some to)
      × (w.is_listed to ≡ true)
      × (w.token_status to ≡ suspended)

  abbrev pub AnySuspended : List ℕ → Type 0
  AnySuspended [] = ⊥
  AnySuspended (raw ∷ raws) = IsSuspended raw ⊎ AnySuspended raws

  refuses-suspended : (t : TokenStatus) → refuses w t ≡ true → t ≡ suspended
  refuses-suspended no_template e = cc
  refuses-suspended no_contract e = cc
  refuses-suspended active e = cc
  refuses-suspended suspended e = refl

  is_suspended_for-IsSuspended :
      (raw : ℕ) (o : Option Address)
      → w.decode raw ≡ o
      → is_suspended_for w o ≡ true
      → IsSuspended raw
  is_suspended_for-IsSuspended raw none d e = cc
  is_suspended_for-IsSuspended raw (some to) d e = elim (Bool-cases (w.is_listed to)) [
    | inl listed ↦ (to, d, listed, refuses-suspended (w.token_status to) (rw listed at e))
    | inr unlisted ↦ cc (rw unlisted at e)
  ]

  IsSuspended-is_suspended_for :
      (raw : ℕ) → is_suspended_for w (w.decode raw) ≡ false → IsSuspended raw → ⊥
  IsSuspended-is_suspended_for raw e (to, d, listed, s) = cc (rw (d, listed, s) at e)

  has_suspended-AnySuspended : (raws : List ℕ) → has_suspended w raws ≡ true → AnySuspended raws
  unfolding has_suspended
  has_suspended-AnySuspended [] e = cc
  has_suspended-AnySuspended (raw ∷ raws) e =
      elim (Bool-cases (is_suspended_for w (w.decode raw))) [
        | inl here ↦ inl (is_suspended_for-IsSuspended raw (w.decode raw) refl here)
        | inr later ↦ inr (has_suspended-AnySuspended raws (rw later at e))
      ]

  AnySuspended-has_suspended :
      (raws : List ℕ) → has_suspended w raws ≡ false → AnySuspended raws → ⊥
  unfolding has_suspended
  AnySuspended-has_suspended [] e h = h
  AnySuspended-has_suspended (raw ∷ raws) e (inl here) =
      elim (Bool-cases (is_suspended_for w (w.decode raw))) [
        | inl found ↦ cc (rw found at e)
        | inr not_found ↦ IsSuspended-is_suspended_for raw not_found here
      ]
  AnySuspended-has_suspended (raw ∷ raws) e (inr later) =
      elim (Bool-cases (is_suspended_for w (w.decode raw))) [
        | inl found ↦ cc (rw found at e)
        | inr not_found ↦ AnySuspended-has_suspended raws (rw not_found at e) later
      ]

  -- What each response means.
  abbrev pub Means : List ℕ → Response → Type 0
  Means raws (ok es) = AreEntries 0 raws es × (AnySuspended raws → ⊥)
  Means raws suspended_token = AnySuspended raws
  Means raws internal_error = ((k : ℕ) × (w.pending k ≡ none)) × (AnySuspended raws → ⊥)

  wait_pool-none :
      (left k threshold : ℕ) → wait_pool w left k threshold ≡ none → (j : ℕ) × (w.pending j ≡ none)
  unfolding wait_pool
  wait_pool-none zero k threshold e = cc
  wait_pool-none (suc left) k threshold e =
      by_answer (w.pending k) refl e (wait_pool-none left (suc k) threshold)
    where
      by_answer :
          (o : Option ℕ)
          → w.pending k ≡ o
          → wait_on w (wait_pool w left (suc k) threshold) o threshold ≡ none
          → (wait_pool w left (suc k) threshold ≡ none → (j : ℕ) × (w.pending j ≡ none))
          → (j : ℕ) × (w.pending j ≡ none)
      by_answer none d h later = (k, d)
      by_answer (some count) d h later = elim (Bool-cases (leb count threshold)) [
        | inl low ↦ cc (rw low at h)
        | inr high ↦ later (rw high at h)
      ]

  -- If the calls of contracts do not raise: the response is an error for a suspended token exactly
  -- if a transaction is for a listed token that is suspended; it is an internal error only if the
  -- pool cannot be read; else it has one entry for each transaction, in order and numbered from 1.
  -- An entry with a hash has the status 1, and the node has answered with that hash to this
  -- transaction; one with the status 1 has a hash; and an entry whose status is not 0 is of a
  -- transaction for an executable or a default contract.
  pub send_raw_transaction_no_wait-Means :
      (threshold : ℕ) (raws : List ℕ) → Means raws (send_raw_transaction_no_wait w threshold raws)
  unfolding send_raw_transaction_no_wait
  send_raw_transaction_no_wait-Means threshold raws = elim (Bool-cases (has_suspended w raws)) [
    | inl found ↦ rw found (has_suspended-AnySuspended raws found)
    | inr not_found ↦ rw not_found (by_pool (wait_pool w 151 0 threshold) refl not_found)
  ]
    where
      by_pool :
          (o : Option Bool)
          → wait_pool w 151 0 threshold ≡ o
          → has_suspended w raws ≡ false
          → Means raws (after_pool w o raws)
      by_pool none e h = (wait_pool-none 151 0 threshold e, AnySuspended-has_suspended raws h)
      by_pool (some b) e h = (send_all-AreEntries 0 raws, AnySuspended-has_suspended raws h)
