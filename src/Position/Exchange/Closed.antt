-- ===== src/Position/Exchange/Closed.antt =====
-- What every write of batch/indexer_Position_Bond.py keeps, its loops over exchanges keep.
use ibet_wallet_api.Base.{
  ℕ, refl, inl, inr, List, [], ◌∷◌, select, Option, none, some, ltb, Run, returned, raised,
  out_of_fuel, Bool-cases, All, Ends, Ends-returned, Ends-bind,
}
use ibet_wallet_api.Chain.{Address, Answer, events_of, Ends-events_of}
use ibet_wallet_api.Approval.Targets.{TargetToken, has_token}
use ibet_wallet_api.Approval.Sync.{Targets}
use ibet_wallet_api.Position.Table.{sink_on_position}
use ibet_wallet_api.Position.Session.{Session, ended, ask_for, write, ask_all}
use ibet_wallet_api.Position.Session.Outcomes.{After, After-for_loop}
use ibet_wallet_api.Position.Accounts.{Holder, unique_holders}
use ibet_wallet_api.Position.Node.{OneArgs, TwoArgs, Node}
use ibet_wallet_api.Position.Sync.Closed.{IsTrue, Closed, Holds, Holds-ask_all}
use ibet_wallet_api.Position.Exchange.{
  ExchangeBalance, exchange_amounts, sink_exchange_balances, get_account_balance_exchange,
  sync_holders, with_holders, for_exchanges, read_one, read_two, exchange_holders, escrow_holders,
  dvp_holders,
}

module _ (n : Node) where
  IsTrueHolder : ExchangeBalance → Type 0
  IsTrueHolder b = IsTrue n b.holder.token_address b.holder.account_address b.amounts

  exchange-IsTrue :
      (exchange : Address) (h : Holder)
      → Holds IsTrueHolder (get_account_balance_exchange n exchange h)
  unfolding get_account_balance_exchange IsTrueHolder
  exchange-IsTrue exchange h =
      answered (n.exchange_balance_of exchange h.account_address h.token_address)
        (n.commitment_of exchange h.account_address h.token_address)
    where
      answered : (b c : Option ℕ) → Holds IsTrueHolder (exchange_amounts h b c)
      answered none c = tt
      answered (some b) none = tt
      answered (some b) (some c) = record { balance = inl refl; pending_transfer = inl refl }

  module _ {P : Session → Type 0} (closed : Closed n P) where
    sink_exchange_balances-Closed :
        (bs : List ExchangeBalance) (s : Session)
        → All IsTrueHolder bs
        → P s
        → P (write (sink_exchange_balances bs) s)
    unfolding IsTrueHolder
    sink_exchange_balances-Closed [] s true_ h = h
    sink_exchange_balances-Closed (b ∷ bs) s (first, rest) h =
        sink_exchange_balances-Closed bs
          (write (sink_on_position b.holder.token_address b.holder.account_address b.amounts) s)
          rest (closed.position b.holder.token_address b.holder.account_address b.amounts s first h)

    sync_holders-After :
        (exchange : Address) (ts : List TargetToken) (holders : List Holder) (s : Session)
        → P s
        → After P (sync_holders n exchange ts holders s)
    unfolding sync_holders
    sync_holders-After exchange ts holders s h =
        answered
          (ask_all (get_account_balance_exchange n exchange)
            (select (λ h. has_token h.token_address ts) (unique_holders holders)))
          (Holds-ask_all _ (get_account_balance_exchange n exchange) (exchange-IsTrue exchange)
            (select (λ h. has_token h.token_address ts) (unique_holders holders)))
      where
        answered :
            (o : Option (List ExchangeBalance))
            → Holds (All IsTrueHolder) o
            → After P
                (ask_for o (λ balances s. ended (write (sink_exchange_balances balances) s)) s)
        answered none k = h
        answered (some bs) k = sink_exchange_balances-Closed bs s k h

    pub for_exchanges-After :
        (read : Address → ℕ → ℕ → Run (List Holder))
        → ((x : Address) (a b : ℕ) → Ends (read x a b))
        → (g : Targets) (to : ℕ) (s : Session) → P s
        → After P (for_exchanges n read g to s)
    for_exchanges-After read ends g to =
        After-for_loop P _
          (λ x s h. elim (Bool-cases (ltb to x.cursor)) [
            | inl late ↦ rw late h
            | inr now ↦ rw now (
                answered x.exchange_address s h (read x.exchange_address x.cursor to)
                  (ends x.exchange_address x.cursor to))
          ])
          g.exchange_list
      where
        answered :
            (x : Address) (s : Session)
            → P s
            → (m : Run (List Holder)) → Ends m
            → After P (with_holders m (sync_holders n x g.token_list) s)
        answered x s h (returned hs) e = sync_holders-After x g.token_list hs s h
        answered x s h raised e = h
        answered x s h out_of_fuel e = absurd (e.ends refl)

Ends-read_one : (answer : Answer OneArgs) (ts : List TargetToken) → Ends (read_one answer ts)
Ends-read_one answer ts =
    Ends-bind (events_of answer) _ (Ends-events_of answer) (λ es. Ends-returned)

Ends-read_two : (answer : Answer TwoArgs) (ts : List TargetToken) → Ends (read_two answer ts)
Ends-read_two answer ts =
    Ends-bind (events_of answer) _ (Ends-events_of answer) (λ es. Ends-returned)

module _ (n : Node) (ts : List TargetToken) (x : Address) (a b : ℕ) where
  pub Ends-exchange_holders : Ends (exchange_holders n ts x a b)
  unfolding exchange_holders
  Ends-exchange_holders = Ends-bind _ _ (Ends-read_one (n.new_order x a b) ts) λ _.
      Ends-bind _ _ (Ends-read_one (n.cancel_order x a b) ts) λ _.
        Ends-bind _ _ (Ends-read_one (n.force_cancel_order x a b) ts) λ _.
          Ends-bind _ _ (Ends-read_one (n.agree x a b) ts) λ _.
            Ends-bind _ _ (Ends-read_two (n.settlement_ok x a b) ts)
              λ _. Ends-bind _ _ (Ends-read_one (n.settlement_ng x a b) ts) λ _. Ends-returned

  pub Ends-escrow_holders : Ends (escrow_holders n ts x a b)
  unfolding escrow_holders
  Ends-escrow_holders = Ends-bind _ _ (Ends-read_one (n.escrow_created x a b) ts) λ _.
      Ends-bind _ _ (Ends-read_one (n.escrow_canceled x a b) ts)
        λ _. Ends-bind _ _ (Ends-read_two (n.escrow_holder_changed x a b) ts) λ _. Ends-returned

  pub Ends-dvp_holders : Ends (dvp_holders n ts x a b)
  unfolding dvp_holders
  Ends-dvp_holders = Ends-bind _ _ (Ends-read_one (n.delivery_created x a b) ts) λ _.
      Ends-bind _ _ (Ends-read_one (n.delivery_canceled x a b) ts) λ _.
        Ends-bind _ _ (Ends-read_one (n.delivery_aborted x a b) ts)
          λ _. Ends-bind _ _ (Ends-read_two (n.dvp_holder_changed x a b) ts) λ _. Ends-returned
