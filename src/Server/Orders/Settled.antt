-- ===== src/Server/Orders/Settled.antt =====
-- What becomes of an order (src/marketplace-server.ts, lines 4196 to 4300).
use perfect_weather_predicti.Prelude.{
  ℕ, ◌≡◌, inl, inr, refl, ap, sym, subst, true, Option, none, some, some-injective, [], List,
  String, str_eq, eq_iff, lookup, put, lookup-put, Bool-cases, arith, >>=-eq-some, assert,
  assert-eq-some,
}
use perfect_weather_predicti.Server.Orders.{
  OrderStatus, funded, relayed, settled, refunded, AgentModel, EscrowOrder, Desk, AgentBody,
  OrderBody, require_string, Prices, Texts, register_agent, find_agent, create_order, is_funded,
  is_relayed, output_for, relay_run, commits_to, Payouts, reveal_settle,
}

module _ {Price : Type 0} (prices : Prices Price) (texts : Texts) where
  open texts use {sha256_hex}

  -- A request that is accepted.
  pub data Step (d e : Desk Price) : Type 0 where
    registered :
        (id : String) (body : AgentBody Price)
        → register_agent prices texts id body d ≡ some e
        → Step d e
    created :
        (id : String) (now : ℕ) (body : OrderBody Price)
        → create_order prices texts id now body d ≡ some e
        → Step d e
    ran : (order_id : String) → relay_run prices texts order_id d ≡ some e → Step d e
    revealed :
        (order_id : String) (body : Option String) (payouts : Payouts prices texts)
        → reveal_settle prices texts order_id body d ≡ some (e, payouts)
        → Step d e

  -- The desks that requests lead to, from one without orders on.
  pub data IsReachable : Desk Price → Type 0 where
    start :
        (agents : List (AgentModel Price)) → IsReachable (record { agents = agents; orders = [] })
    step : {d e : Desk Price} → IsReachable d → Step d e → IsReachable e

  -- What the status of an order tells of the commitment to its output and of the revealed one.
  abbrev pub StatusFits : OrderStatus → (commitment revealed_output : Option String) → Type 0
  StatusFits funded commitment revealed_output = (commitment ≡ none) × (revealed_output ≡ none)
  StatusFits relayed commitment revealed_output =
      ((output : String) × (commitment ≡ some (sha256_hex output))) × (revealed_output ≡ none)
  StatusFits settled commitment revealed_output =
      (output : String) × (revealed_output ≡ some output) × (commitment ≡ some (sha256_hex output))
  StatusFits refunded commitment revealed_output = ⊥

  abbrev pub IsCoherent : EscrowOrder Price → Type 0
  IsCoherent order = StatusFits order.status order.relayer_output_commitment order.revealed_output

  AllCoherent : Desk Price → Type 0
  AllCoherent d =
      (id : String) (order : EscrowOrder Price) → lookup id d.orders ≡ some order → IsCoherent order

  put_coherent :
      (key : String) (v : EscrowOrder Price) (d : Desk Price)
      → AllCoherent d
      → IsCoherent v
      → AllCoherent (record d { orders = put key v d.orders })
  unfolding AllCoherent
  put_coherent key v d all coherent id order found = elim (Bool-cases (str_eq key id)) [
    | inl same ↦
        let is_it : v ≡ order = ground (arith, lookup-put key id v d.orders) in
        subst IsCoherent is_it coherent
    | inr other ↦ all id order (ground (arith, lookup-put key id v d.orders))
  ]

  unrevealed :
      (status : OrderStatus) (commitment revealed_output : Option String)
      → StatusFits status commitment revealed_output
      → is_funded prices texts status ≡ true
      → revealed_output ≡ none
  unrevealed funded commitment revealed_output (committed, unseen) is_it = unseen
  unrevealed relayed commitment revealed_output fits is_it = cc
  unrevealed settled commitment revealed_output fits is_it = cc
  unrevealed refunded commitment revealed_output fits is_it = cc

  commits_to-eq :
      (commitment : Option String) (output : String)
      → commits_to prices texts commitment output ≡ true
      → commitment ≡ some (sha256_hex output)
  commits_to-eq none output h = cc
  commits_to-eq (some c) output h = ap some (sym ((eq_iff (sha256_hex output) c).0 h))

  created-AllCoherent :
      (id : String) (now : ℕ) (body : OrderBody Price) (d e : Desk Price)
      → AllCoherent d
      → create_order prices texts id now body d ≡ some e
      → AllCoherent e
  unfolding create_order
  created-AllCoherent id now body d e all done =
      let (buyer, e1, r1) = >>=-eq-some (require_string body.buyer) _ done in
      let (wallet, e2, r2) = >>=-eq-some (require_string body.wallet_public_key) _ r1 in
      let (agent_id, e3, r3) = >>=-eq-some (require_string body.agent_id) _ r2 in
      let (prompt, e4, r4) = >>=-eq-some (require_string body.prompt) _ r3 in
      let (agent, e5, r5) = >>=-eq-some (find_agent prices texts agent_id d.agents) _ r4 in
      let (same, e6, r6) = >>=-eq-some (assert (str_eq wallet buyer)) _ r5 in
      subst AllCoherent (some-injective _ _ r6) (put_coherent id _ d all (refl, refl))

  ran-AllCoherent :
      (order_id : String) (d e : Desk Price)
      → AllCoherent d
      → relay_run prices texts order_id d ≡ some e
      → AllCoherent e
  unfolding relay_run AllCoherent
  ran-AllCoherent order_id d e all done =
      let (order, found, r1) = >>=-eq-some (lookup order_id d.orders) _ done in
      let (fine, is_it, r2) = >>=-eq-some (assert (is_funded prices texts order.status)) _ r1 in
      let (agent, e3, r3) = >>=-eq-some (find_agent prices texts order.agent_id d.agents) _ r2 in
      subst AllCoherent (some-injective _ _ r3) (
        put_coherent order_id _ d all (
          (output_for prices texts agent.mode order, refl),
          unrevealed order.status order.relayer_output_commitment order.revealed_output
              (all order_id order found) (assert-eq-some _ is_it),
        ))

  revealed-AllCoherent :
      (order_id : String) (body : Option String) (payouts : Payouts prices texts) (d e : Desk Price)
      → AllCoherent d
      → reveal_settle prices texts order_id body d ≡ some (e, payouts)
      → AllCoherent e
  unfolding reveal_settle
  revealed-AllCoherent order_id body payouts d e all done =
      let (output, e1, r1) = >>=-eq-some (require_string body) _ done in
      let (order, found, r2) = >>=-eq-some (lookup order_id d.orders) _ r1 in
      let (fine, is_it, r3) = >>=-eq-some (assert (is_relayed prices texts order.status)) _ r2 in
      let matches = commits_to prices texts order.relayer_output_commitment output in
      let (opens, is_so, r4) = >>=-eq-some (assert matches) _ r3 in
      subst AllCoherent
        (ap (λ (q : Desk Price × Payouts prices texts). q.0) (some-injective _ _ r4))
        (put_coherent order_id _ d all (
          output,
          refl,
          commits_to-eq order.relayer_output_commitment output (assert-eq-some matches is_so),
        ))

  registered-AllCoherent :
      (id : String) (body : AgentBody Price) (d e : Desk Price)
      → AllCoherent d
      → register_agent prices texts id body d ≡ some e
      → AllCoherent e
  unfolding register_agent AllCoherent
  registered-AllCoherent id body d e all done j order found =
      let same : e.orders ≡ d.orders = ground arith in all j order (ground (arith, same))

  reachable-AllCoherent : (d : Desk Price) → IsReachable d → AllCoherent d
  unfolding AllCoherent lookup
  reachable-AllCoherent d (start agents) = λ id order found. cc
  reachable-AllCoherent d (step before (created id now body done)) =
      created-AllCoherent id now body _ d (reachable-AllCoherent _ before) done
  reachable-AllCoherent d (step before (ran id done)) =
      ran-AllCoherent id _ d (reachable-AllCoherent _ before) done
  reachable-AllCoherent d (step before (revealed id body payouts done)) =
      revealed-AllCoherent id body payouts _ d (reachable-AllCoherent _ before) done
  reachable-AllCoherent d (step {d = before} reached (registered id body done)) =
      registered-AllCoherent id body before d (reachable-AllCoherent before reached) done

  -- After any sequence of accepted requests on a desk that had no orders, an order that is funded has
  -- neither a commitment nor a revealed output, one that is relayed has a commitment to some output
  -- and nothing revealed, and one that is settled has revealed the output that its commitment is of;
  -- none is refunded.
  pub reachable_order-IsCoherent :
      (d : Desk Price) (id : String) (order : EscrowOrder Price)
      → IsReachable d
      → lookup id d.orders ≡ some order
      → IsCoherent order
  unfolding AllCoherent
  reachable_order-IsCoherent d id order reached found =
      reachable-AllCoherent d reached id order found

  -- An order that is settled stays so: it is neither run nor revealed again, with whatever output.
  pub settled_order_is_final :
      (d : Desk Price) (id : String) (order : EscrowOrder Price) (body : Option String)
      → lookup id d.orders ≡ some order
      → order.status ≡ settled
      → (relay_run prices texts id d ≡ none) × (reveal_settle prices texts id body d ≡ none)
  unfolding relay_run reveal_settle
  settled_order_is_final d id order body found is_settled = ground arith
