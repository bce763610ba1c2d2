-- ===== src/Nodes/Failover/Request.antt =====
-- Which requests `make_request` of app/utils/web3_utils.py sends, and what it returns.
use ibet_wallet_api.Base.{
  ℕ, zero, suc, ◌+◌, ◌≤◌, ◌<◌, ◌≡◌, ◌≢◌, refl, inl, inr, Bool, true, false, List, [], ◌∷◌, Option,
  none, some, ltb, Bool-cases, arith,
}
use mathlib.Core.Path.{subst}
use ibet_wallet_api.Nodes.Table.{Node, alive_node}
use ibet_wallet_api.Nodes.Failover.{
  Error, Reply, response, error, Result, responded, error_raised, service_unavailable, World,
  on_reply, on_node, attempts, request_to, make_request,
}
use ibet_wallet_api.Nodes.Failover.Chosen.{IsChosen, NoneAlive, alive_node-IsAnswer, IsAnswer}

module _ {R : Type 0} (retried : Error → Bool) (w : World R) where
  -- An attempt without a result: no node is synchronized, or the chosen one gives an error that is
  -- retried.
  pub data Fails (i : ℕ) : Type 0 where
    no_node : NoneAlive (w.nodes i) → Fails i
    no_reply :
        (n : Node) (e : Error)
        → IsChosen n (w.nodes i)
        → w.send i n.endpoint_uri ≡ error e
        → retried e ≡ true
        → Fails i

  -- The attempt gives this reply, and those before it failed.
  pub record Replies (retry_count : ℕ) (reply : Reply R) : Type 0 where
    pub attempt : ℕ
    pub bound : attempt ≤ retry_count
    pub earlier : (i : ℕ) → i < attempt → Fails i
    pub node : Node
    pub chosen : IsChosen node (w.nodes attempt)
    pub sent : w.send attempt node.endpoint_uri ≡ reply

  abbrev pub IsFailover : ℕ → Result R → Type 0
  IsFailover retry_count (responded r) = Replies retry_count (response r)
  IsFailover retry_count (error_raised e) = Replies retry_count (error e) × (retried e ≡ false)
  IsFailover retry_count service_unavailable = (i : ℕ) → i ≤ retry_count → Fails i

  next_failed :
      (counter : ℕ)
      → ((i : ℕ) → i < counter → Fails i)
      → Fails counter
      → (i : ℕ) → i < suc counter
      → Fails i
  next_failed counter earlier now i h = elim (Bool-cases (ltb i counter)) [
    | inl before ↦ earlier i (ground (arith, before))
    | inr at_ ↦ subst Fails (ground (arith, at_, h)) now
  ]

  attempts-IsFailover :
      (retry_count left counter : ℕ)
      → counter + left ≡ suc retry_count
      → ((i : ℕ) → i < counter → Fails i)
      → IsFailover retry_count (attempts retried w left counter)
  unfolding attempts
  attempts-IsFailover retry_count zero counter h earlier = λ i k. earlier i (omega (arith, h, k))
  attempts-IsFailover retry_count (suc left) counter h earlier =
      by_node (attempts retried w left (suc counter))
        (λ now.
          attempts-IsFailover retry_count left (suc counter) (omega (arith, h))
            (next_failed counter earlier now))
        (alive_node (w.nodes counter)) (alive_node-IsAnswer (w.nodes counter))
    where
      by_reply :
          (later : Result R)
          → (Fails counter → IsFailover retry_count later)
          → (n : Node) → IsChosen n (w.nodes counter)
          → (r : Reply R) → w.send counter n.endpoint_uri ≡ r
          → IsFailover retry_count (on_reply retried w later r)
      by_reply later k n c (response r) e = record {
        attempt = counter;
        bound = omega (arith, h);
        earlier = earlier;
        node = n;
        chosen = c;
        sent = e;
      }
      by_reply later k n c (error x) e = elim (Bool-cases (retried x)) [
        | inl again ↦ rw again (k (no_reply n x c e again))
        | inr final ↦ rw final (
          record {
            attempt = counter;
            bound = omega (arith, h);
            earlier = earlier;
            node = n;
            chosen = c;
            sent = e;
          },
          final,
        )
      ]

      by_node :
          (later : Result R)
          → (Fails counter → IsFailover retry_count later)
          → (o : Option Node) → IsAnswer o (w.nodes counter)
          → IsFailover retry_count (on_node retried w later counter o)
      by_node later k none c = k (no_node c)
      by_node later k (some n) c = by_reply later k n c (w.send counter n.endpoint_uri) refl

  -- In fail-over mode, once the monitor has written a node: a response or an error that is raised
  -- is that of the synchronized node that is first by priority and id, at one of the first
  -- `retry_count + 1` attempts, all the attempts before having failed; the service is reported as
  -- unavailable only when all `retry_count + 1` attempts have failed. An attempt fails when no node
  -- is synchronized, or the first one gives an error that is retried.
  pub make_request-IsFailover :
      (retry_count provider : ℕ)
      → w.at_start ≢ []
      → IsFailover retry_count (make_request retried w true retry_count provider)
  unfolding make_request
  make_request-IsFailover retry_count provider h = by_start w.at_start h
    where
      by_start :
          (ns : List Node)
          → ns ≢ []
          → IsFailover retry_count (request_to retried w retry_count provider ns)
      by_start [] k = absurd (k refl)
      by_start (n ∷ ns) k =
          attempts-IsFailover retry_count (suc retry_count) 0 (omega arith)
            (λ i j. absurd (omega (arith, j)))
