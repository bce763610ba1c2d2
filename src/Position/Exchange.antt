-- ===== src/Position/Exchange.antt =====
-- `__sync_exchange`, `__sync_escrow` and `__sync_dvp` of batch/indexer_Position_Bond.py.
pub mod Closed
use ibet_wallet_api.Base.{
  ℕ, Bool, List, [], ◌∷◌, ◌++◌, map, select, each, Option, none, some, if◌then◌else◌, not, ltb,
  ◌==◌, Run, returned, raised, out_of_fuel, ◌>>=◌,
}
use ibet_wallet_api.Chain.{Address, Log, Answer, events_of}
use ibet_wallet_api.Approval.Targets.{TargetToken, TargetExchange, has_token}
use ibet_wallet_api.Approval.Sync.{Targets}
use ibet_wallet_api.Position.Table.{Db, Amounts, sink_on_position}
use ibet_wallet_api.Position.Session.{
  Session, Outcome, ended, raised_at, spent, for_loop, ask_for, write, ask_all,
}
use ibet_wallet_api.Position.Accounts.{Holder, unique_holders}
use ibet_wallet_api.Position.Node.{OneArgs, TwoArgs, Node}

-- `TargetTokenList.get_cursor`
unfoldable pub get_cursor : Address → List TargetToken → ℕ
get_cursor token [] = 0
get_cursor token (t ∷ ts) = if t.token_address == token then t.cursor else get_cursor token ts

abbrev pub one_holder : OneArgs → List Holder
one_holder a = record { token_address = a.token; account_address = a.account } ∷ []

abbrev pub two_holders : TwoArgs → List Holder
two_holders a =
    record { token_address = a.token; account_address = a.first }
    ∷ record { token_address = a.token; account_address = a.second }
    ∷ []

-- `if event_block_number < token_cursor: continue`, and the appends to `account_list_tmp`.
abbrev pub holders_of :
    {A : Type 0} → (A → Address) → (A → List Holder) → List TargetToken → List (Log A) → List Holder
holders_of token holders ts [] = []
holders_of token holders ts (e ∷ es) =
    (if ltb e.block_number (get_cursor (token e.args) ts) then [] else holders e.args)
    ++ holders_of token holders ts es

-- One kind of event: its logs, or an exception.
abbrev pub read_one : Answer OneArgs → List TargetToken → Run (List Holder)
read_one answer ts =
    events_of answer >>= λ es. returned (holders_of (λ a. a.token) one_holder ts es)

abbrev pub read_two : Answer TwoArgs → List TargetToken → Run (List Holder)
read_two answer ts =
    events_of answer >>= λ es. returned (holders_of (λ a. a.token) two_holders ts es)

-- The amounts of an account of a token on an exchange.
pub record ExchangeBalance : Type 0 where
  pub holder : Holder
  pub amounts : Amounts

abbrev pub exchange_amounts : Holder → Option ℕ → Option ℕ → Option ExchangeBalance
exchange_amounts h none commitment = none
exchange_amounts h (some balance) none = none
exchange_amounts h (some balance) (some commitment) = some (record {
  holder = h;
  amounts = record {
    balance = none;
    pending_transfer = none;
    exchange_balance = some balance;
    exchange_commitment = some commitment;
  };
})

abbrev pub sink_exchange_balances : List ExchangeBalance → Db → Db
sink_exchange_balances =
    each (λ b. sink_on_position b.holder.token_address b.holder.account_address b.amounts)

abbrev pub with_holders : Run (List Holder) → (List Holder → Session → Outcome) → Session → Outcome
with_holders (returned hs) rest s = rest hs s
with_holders raised rest s = raised_at s
with_holders out_of_fuel rest s = spent

module _ (n : Node) where
  -- `__get_account_balance_exchange`
  unfoldable pub get_account_balance_exchange : Address → Holder → Option ExchangeBalance
  get_account_balance_exchange exchange h =
      exchange_amounts h (n.exchange_balance_of exchange h.account_address h.token_address)
        (n.commitment_of exchange h.account_address h.token_address)

  -- The accounts without repetition, those of listed tokens, and their positions.
  unfoldable pub sync_holders : Address → List TargetToken → List Holder → Session → Outcome
  sync_holders exchange ts holders =
      ask_for
        (ask_all (get_account_balance_exchange exchange)
          (select (λ h. has_token h.token_address ts) (unique_holders holders)))
        (λ balances s. ended (write (sink_exchange_balances balances) s))

  -- A loop over the exchanges.
  abbrev pub for_exchanges : (Address → ℕ → ℕ → Run (List Holder)) → Targets → ℕ → Session → Outcome
  for_exchanges read targets block_to =
      for_loop
        (λ x s.
          if ltb block_to x.cursor
          then ended s
          else (with_holders (read x.exchange_address x.cursor block_to)
              (sync_holders x.exchange_address targets.token_list) s))
        targets.exchange_list

  -- The accounts of the six kinds of events of an IbetExchange.
  unfoldable pub exchange_holders : List TargetToken → Address → ℕ → ℕ → Run (List Holder)
  exchange_holders ts x a b = do
    new ← read_one (n.new_order x a b) ts
    cancelled ← read_one (n.cancel_order x a b) ts
    forced ← read_one (n.force_cancel_order x a b) ts
    agreed ← read_one (n.agree x a b) ts
    settled ← read_two (n.settlement_ok x a b) ts
    failed ← read_one (n.settlement_ng x a b) ts
    returned (new ++ (cancelled ++ (forced ++ (agreed ++ (settled ++ failed)))))

  unfoldable pub sync_exchange : Targets → ℕ → Session → Outcome
  sync_exchange targets = for_exchanges (exchange_holders targets.token_list) targets

  unfoldable pub escrow_holders : List TargetToken → Address → ℕ → ℕ → Run (List Holder)
  escrow_holders ts x a b = do
    new ← read_one (n.escrow_created x a b) ts
    cancelled ← read_one (n.escrow_canceled x a b) ts
    changed ← read_two (n.escrow_holder_changed x a b) ts
    returned (new ++ (cancelled ++ changed))

  unfoldable pub sync_escrow : Targets → ℕ → Session → Outcome
  sync_escrow targets = for_exchanges (escrow_holders targets.token_list) targets

  unfoldable pub dvp_holders : List TargetToken → Address → ℕ → ℕ → Run (List Holder)
  dvp_holders ts x a b = do
    new ← read_one (n.delivery_created x a b) ts
    cancelled ← read_one (n.delivery_canceled x a b) ts
    aborted ← read_one (n.delivery_aborted x a b) ts
    changed ← read_two (n.dvp_holder_changed x a b) ts
    returned (new ++ (cancelled ++ (aborted ++ changed)))

  unfoldable pub sync_dvp : Targets → ℕ → Session → Outcome
  sync_dvp targets = for_exchanges (dvp_holders targets.token_list) targets
