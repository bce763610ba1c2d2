-- ===== src/Approval/Targets.antt =====
-- `TargetTokenList` and `TargetExchangeList` of batch/indexer_TransferApproval.py, and their cursors.
use ibet_wallet_api.Base.{ℕ, Bool, false, ◌||◌, List, [], ◌∷◌, ◌++◌, map, if◌then◌else◌, ltb, ◌==◌}
use ibet_wallet_api.Chain.{Address}

-- `TargetToken`; the contract stands for its address.
pub record TargetToken : Type 0 where
  pub token_address : Address
  pub exchange_address : Address
  pub start_block_number : ℕ
  pub cursor : ℕ

-- `TargetExchange`
pub record TargetExchange : Type 0 where
  pub exchange_address : Address
  pub start_block_number : ℕ
  pub cursor : ℕ

abbrev pub lower_token : Address → ℕ → TargetToken → TargetToken
lower_token token block_number t =
    if t.token_address == token
    then (if ltb block_number t.start_block_number
        then record t { start_block_number = block_number; cursor = block_number }
        else t)
    else t

abbrev pub has_token : Address → List TargetToken → Bool
has_token token [] = false
has_token token (t ∷ ts) = t.token_address == token || has_token token ts

-- `TargetTokenList.append`
unfoldable pub append_token : Address → Address → ℕ → List TargetToken → List TargetToken
append_token token exchange block_number ts =
    if has_token token ts
    then map (lower_token token block_number) ts
    else ts
      ++ (record {
        token_address = token;
        exchange_address = exchange;
        start_block_number = block_number;
        cursor = block_number;
      }
          ∷ [])

abbrev pub lower_exchange : Address → ℕ → TargetExchange → TargetExchange
lower_exchange exchange block_number e =
    if e.exchange_address == exchange
    then (if ltb block_number e.start_block_number
        then record e { start_block_number = block_number; cursor = block_number }
        else e)
    else e

abbrev pub has_exchange : Address → List TargetExchange → Bool
has_exchange exchange [] = false
has_exchange exchange (e ∷ es) = e.exchange_address == exchange || has_exchange exchange es

-- `TargetExchangeList.append`
unfoldable pub append_exchange : Address → ℕ → List TargetExchange → List TargetExchange
append_exchange exchange block_number es =
    if has_exchange exchange es
    then map (lower_exchange exchange block_number) es
    else es
      ++ (record {
        exchange_address = exchange;
        start_block_number = block_number;
        cursor = block_number;
      }
          ∷ [])

-- `__update_cursor`
abbrev pub move_token : ℕ → TargetToken → TargetToken
move_token block_number t =
    if ltb t.start_block_number block_number then record t { cursor = block_number } else t

abbrev pub move_exchange : ℕ → TargetExchange → TargetExchange
move_exchange block_number e =
    if ltb e.start_block_number block_number then record e { cursor = block_number } else e

abbrev pub oldest : ℕ → List TargetToken → ℕ
oldest block_to [] = block_to
oldest block_to (t ∷ ts) = oldest (if ltb t.cursor block_to then t.cursor else block_to) ts

-- `__get_oldest_cursor`
unfoldable pub get_oldest_cursor : List TargetToken → ℕ → ℕ
get_oldest_cursor [] block_to = 0
get_oldest_cursor (t ∷ ts) block_to = oldest block_to (t ∷ ts)
