-- ===== src/Eth/Tests.antt =====
-- Sending three transactions, of which one cannot be decoded and one is for an unknown contract.
use ibet_wallet_api.Base.{◌≡◌, refl, false, [], ◌∷◌, some, none, if◌then◌else◌, ◌==◌}
use ibet_wallet_api.Eth.NoWait.{
  World, active, sent, ok, has_suspended, wait_pool, send_all, send_raw_transaction_no_wait,
}
use ibet_wallet_api.Eth.NoWait.Results.{Means, send_raw_transaction_no_wait-Means}

abbrev world : World
world = record {
  decode = λ raw. if raw == 1 then none else some raw;
  is_listed = λ to. to == 3;
  token_status = λ to. active;
  pending = λ k. some 0;
  is_executable = λ to. to == 3;
  is_default_contract = λ to. false;
  send = λ i raw. sent 77;
}

send_run :
    send_raw_transaction_no_wait world 200 (1 ∷ 2 ∷ 3 ∷ [])
    ≡ ok (
        record { id = 1; status = 0; transaction_hash = none }
        ∷ record { id = 2; status = 0; transaction_hash = none }
        ∷ record { id = 3; status = 1; transaction_hash = some 77 }
        ∷ [])
unfolding send_raw_transaction_no_wait has_suspended wait_pool send_all
send_run = refl

send_raw_transaction_no_wait-Means_example :
    Means world (1 ∷ 2 ∷ 3 ∷ []) (send_raw_transaction_no_wait world 200 (1 ∷ 2 ∷ 3 ∷ []))
send_raw_transaction_no_wait-Means_example =
    send_raw_transaction_no_wait-Means world 200 (1 ∷ 2 ∷ 3 ∷ [])
