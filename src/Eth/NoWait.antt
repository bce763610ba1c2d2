-- ===== src/Eth/NoWait.antt =====
-- `send_raw_transaction_no_wait` of app/api/routers/eth.py, with `txpool_pending_count`.
pub mod Results
use ibet_wallet_api.Base.{
  ℕ, zero, suc, ◌+◌, Bool, true, false, ◌||◌, List, [], ◌∷◌, Option, none, some, if◌then◌else◌, leb,
}
use ibet_wallet_api.Chain.{Address}

-- What `send_raw_transaction` does: a hash, a Web3RPCError by what its message has, or another
-- exception.
pub data Sent : Type 0 where
  sent : ℕ → Sent
  nonce_too_low already_known other_rpc_error other_error : Sent

-- The contract of a listed token.
pub data TokenStatus : Type 0 where
  no_template no_contract active suspended : TokenStatus

-- The tables `listing` and `executable_contract`, the contracts, and web3. `decode` is the address
-- that the transaction is for, `none` where decoding raises. `pending` is the answer of the k-th
-- call of `txpool_pending_count`, `none` where it raises; `send` is the answer for a place in the list
-- and its transaction. An exception of a contract's call in the first loop is left out.
pub record World : Type 0 where
  pub decode : ℕ → Option Address
  pub is_listed : Address → Bool
  pub token_status : Address → TokenStatus
  pub pending : ℕ → Option ℕ
  pub is_executable : Address → Bool
  pub is_default_contract : Address → Bool
  pub send : ℕ → ℕ → Sent

-- An entry of the response; `none` for a `transaction_hash` that is `None` or absent.
pub record Entry : Type 0 where
  pub id : ℕ
  pub status : ℕ
  pub transaction_hash : Option ℕ

pub data Response : Type 0 where
  ok : List Entry → Response
  suspended_token : Response
  internal_error : Response

module _ (w : World) where
  abbrev pub refuses : TokenStatus → Bool
  refuses suspended = true
  refuses _ = false

  abbrev pub is_suspended_for : Option Address → Bool
  is_suspended_for none = false
  is_suspended_for (some to) = if w.is_listed to then refuses (w.token_status to) else false

  -- The first loop: whether it raises SuspendedTokenError.
  unfoldable pub has_suspended : List ℕ → Bool
  has_suspended [] = false
  has_suspended (raw ∷ raws) = is_suspended_for (w.decode raw) || has_suspended raws

  abbrev pub wait_on : Option Bool → Option ℕ → ℕ → Option Bool
  wait_on later none threshold = none
  wait_on later (some count) threshold = if leb count threshold then some true else later

  -- `for i in range(150): …`: `none` where it raises. The request goes on in both other cases.
  unfoldable pub wait_pool : ℕ → ℕ → ℕ → Option Bool
  wait_pool zero k threshold = some false
  wait_pool (suc left) k threshold =
      wait_on (wait_pool left (suc k) threshold) (w.pending k) threshold

  abbrev pub status_of : Sent → ℕ
  status_of (sent hash) = 1
  status_of nonce_too_low = 3
  status_of already_known = 4
  status_of other_rpc_error = 0
  status_of other_error = 0

  abbrev pub hash_of : Sent → Option ℕ
  hash_of (sent hash) = some hash
  hash_of _ = none

  abbrev pub refused : ℕ → Entry
  refused i = record { id = i + 1; status = 0; transaction_hash = none }

  abbrev pub entry_to : ℕ → ℕ → Option Address → Entry
  entry_to i raw none = refused i
  entry_to i raw (some to) =
      if w.is_executable to || w.is_default_contract to
      then record {
        id = i + 1;
        status = status_of (w.send i raw);
        transaction_hash = hash_of (w.send i raw);
      }
      else refused i

  -- `for i, raw_tx_hex in enumerate(raw_tx_hex_list): …`
  unfoldable pub send_all : ℕ → List ℕ → List Entry
  send_all i [] = []
  send_all i (raw ∷ raws) = entry_to i raw (w.decode raw) ∷ send_all (suc i) raws

  abbrev pub after_pool : Option Bool → List ℕ → Response
  after_pool none raws = internal_error
  after_pool (some _) raws = ok (send_all 0 raws)

  -- `send_raw_transaction_no_wait`; the first call of `txpool_pending_count` and the 150 of the loop.
  unfoldable pub send_raw_transaction_no_wait : ℕ → List ℕ → Response
  send_raw_transaction_no_wait threshold raws =
      if has_suspended raws then suspended_token else after_pool (wait_pool 151 0 threshold) raws
