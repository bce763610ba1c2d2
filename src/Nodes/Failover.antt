-- ===== src/Nodes/Failover.antt =====
-- `make_request` of `FailOverHTTPProvider` and `AsyncFailOverHTTPProvider` in
-- app/utils/web3_utils.py: the two differ in the exceptions that they retry.
pub mod Chosen
pub mod Request
use ibet_wallet_api.Base.{
  ℕ, zero, suc, Bool, true, false, List, [], ◌∷◌, Option, none, some, if◌then◌else◌,
}
use ibet_wallet_api.Nodes.Table.{Node, alive_node}

-- What `super().make_request` may raise.
pub data Error : Type 0 where
  connection_error http_error client_error json_decode_error other_error : Error

pub data Reply (R : Type 0) : Type 0 where
  response : R → Reply R
  error : Error → Reply R

-- `except (ConnectionError, JSONDecodeError, HTTPError)`
unfoldable pub is_retried : Error → Bool
is_retried connection_error = true
is_retried json_decode_error = true
is_retried http_error = true
is_retried _ = false

-- `except (ClientError, JSONDecodeError)`
unfoldable pub is_retried_async : Error → Bool
is_retried_async client_error = true
is_retried_async json_decode_error = true
is_retried_async _ = false

pub data Result (R : Type 0) : Type 0 where
  responded : R → Result R
  error_raised : Error → Result R
  service_unavailable : Result R

-- The world of one call: the table when it starts and before each attempt (the monitor writes it
-- meanwhile), and what the request to a node at an attempt gives.
pub record World (R : Type 0) : Type 0 where
  pub at_start : List Node
  pub nodes : ℕ → List Node
  pub send : ℕ → ℕ → Reply R

module _ {R : Type 0} (retried : Error → Bool) (w : World R) where
  abbrev pub on_reply : Result R → Reply R → Result R
  on_reply later (response r) = responded r
  on_reply later (error e) = if retried e then later else error_raised e

  abbrev pub on_node : Result R → ℕ → Option Node → Result R
  on_node later counter none = later
  on_node later counter (some n) = on_reply later (w.send counter n.endpoint_uri)

  -- `while counter <= WEB3_REQUEST_RETRY_COUNT: …`, with the number of attempts that are left.
  unfoldable pub attempts : ℕ → ℕ → Result R
  attempts zero counter = service_unavailable
  attempts (suc left) counter =
      on_node (attempts left (suc counter)) counter (alive_node (w.nodes counter))

  abbrev pub direct : Reply R → Result R
  direct (response r) = responded r
  direct (error e) = error_raised e

  abbrev pub request_to : ℕ → ℕ → List Node → Result R
  request_to retry_count provider [] = direct (w.send 0 provider)
  request_to retry_count provider (_ ∷ _) = attempts (suc retry_count) 0

  -- `make_request`; `provider` is `config.WEB3_HTTP_PROVIDER`.
  unfoldable pub make_request : Bool → ℕ → ℕ → Result R
  make_request fail_over_mode retry_count provider =
      if fail_over_mode
      then request_to retry_count provider w.at_start
      else direct (w.send 0 provider)
