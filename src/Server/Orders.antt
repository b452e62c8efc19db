-- ===== src/Server/Orders.antt =====
-- src/marketplace-server.ts, lines 83 to 107, 285 to 306, 478 to 497, 818 to 826 and 4196 to 4300: agents, and
-- orders of a prediction that are paid, run and revealed. Parameters are SHA-256 in hex, base64, the
-- output of the demo agent, ids, the clock, and the floating-point arithmetic on prices.
pub mod Settled
mod Tests
use perfect_weather_predicti.Prelude.{
  ℕ, Bool, true, false, not, ◌&&◌, Option, none, some, List, [], ◌∷◌, ◌++◌, String, str_eq, Dict,
  lookup, put, if◌then◌else◌, assert, ◌>>=◌, ◌>>◌,
}
use Prim.Native.String.{◌++◌ as ◌+++◌}

pub data AgentMode : Type 0 where
  random_demo external : AgentMode

pub data OrderStatus : Type 0 where
  funded relayed settled refunded : OrderStatus

module _ (Price : Type 0) where
  pub record AgentModel : Type 0 where
    pub id : String
    pub name : String
    pub owner : String
    pub price : Price
    pub description : String
    pub mode : AgentMode

  pub record EscrowOrder : Type 0 where
    pub id : String
    pub buyer : String
    pub agent_id : String
    pub amount : Price
    pub prompt_hash : String
    pub encrypted_prompt : String
    pub status : OrderStatus
    pub relayer_fee : Price
    pub relayer_output_commitment : Option String
    pub relayer_output_ciphertext : Option String
    pub revealed_output : Option String
    pub created_at_unix_ms : ℕ

  -- `agents` and `orders`
  pub record Desk : Type 0 where
    pub agents : List AgentModel
    pub orders : Dict EscrowOrder

  -- The bodies of the requests; a property that is no string, or no number, is none.
  pub record AgentBody : Type 0 where
    pub name : Option String
    pub owner : Option String
    pub price : Option Price
    pub description : Option String

  pub record OrderBody : Type 0 where
    pub buyer : Option String
    pub wallet_public_key : Option String
    pub agent_id : Option String
    pub prompt : Option String

unfoldable pub require_string : Option String → Option String
require_string none = none
require_string (some text) = if str_eq text "" then none else some text

-- The arithmetic on prices: `positive` is that a number is finite and greater than 0, and
-- `relayer_fee_of price` is `Math.max(1, Math.floor(price * 0.05))`.
pub record Prices (Price : Type 0) : Type 0 where
  pub positive : Price → Bool
  pub relayer_fee_of : Price → Price
  pub minus : Price → Price → Price

-- `createHash('sha256')` in hex, base64 both ways, and `randomPredictionOutput`.
pub record Texts : Type 0 where
  pub sha256_hex : String → String
  pub encode_private_payload : String → String
  pub decode_private_payload : String → String
  pub random_prediction_output : String → String

module _ {Price : Type 0} (prices : Prices Price) (texts : Texts) where
  open prices use {positive, relayer_fee_of, minus}
  open texts use {
    sha256_hex, encode_private_payload, decode_private_payload, random_prediction_output,
  }

  unfoldable pub require_number : Option Price → Option Price
  require_number none = none
  require_number (some n) = if positive n then some n else none

  -- `/api/agents/register`
  unfoldable pub register_agent : (id : String) → AgentBody Price → Desk Price → Option (Desk Price)
  unfolding require_string require_number
  register_agent id body d = do
    name ← require_string body.name
    owner ← require_string body.owner
    price ← require_number body.price
    description ← require_string body.description
    some (record d {
      agents =
          d.agents
          ++ record {
            id = id;
            name = name;
            owner = owner;
            price = price;
            description = description;
            mode = external;
          }
            ∷ [];
    })

  -- `agents.find((a) => a.id === id)`
  unfoldable pub find_agent : String → List (AgentModel Price) → Option (AgentModel Price)
  find_agent id [] = none
  find_agent id (a ∷ agents) =
      let rest = find_agent id agents in if str_eq a.id id then some a else rest

  -- `/api/orders/create`
  unfoldable pub create_order :
      (id : String) (now : ℕ) → OrderBody Price → Desk Price → Option (Desk Price)
  unfolding require_string find_agent
  create_order id now body d = do
    buyer ← require_string body.buyer
    wallet ← require_string body.wallet_public_key
    agent_id ← require_string body.agent_id
    prompt ← require_string body.prompt
    agent ← find_agent agent_id d.agents
    assert (str_eq wallet buyer)
    some (record d {
      orders =
          put id
            (record {
              id = id;
              buyer = buyer;
              agent_id = agent_id;
              amount = agent.price;
              prompt_hash = sha256_hex prompt;
              encrypted_prompt = encode_private_payload prompt;
              status = funded;
              relayer_fee = relayer_fee_of agent.price;
              relayer_output_commitment = none;
              relayer_output_ciphertext = none;
              revealed_output = none;
              created_at_unix_ms = now;
            })
            d.orders;
    })

  abbrev pub is_funded : OrderStatus → Bool
  is_funded funded = true
  is_funded relayed = false
  is_funded settled = false
  is_funded refunded = false

  abbrev pub is_relayed : OrderStatus → Bool
  is_relayed funded = false
  is_relayed relayed = true
  is_relayed settled = false
  is_relayed refunded = false

  -- What the agent's model gives for an order.
  abbrev pub output_for : AgentMode → EscrowOrder Price → String
  output_for random_demo order = random_prediction_output order.prompt_hash
  output_for external order =
      ("{\"note\":\"external model pending\",\"prompt\":\""
        +++ decode_private_payload order.encrypted_prompt)
      +++ "\"}"

  -- `/api/orders/:id/relay-run`
  unfoldable pub relay_run : (order_id : String) → Desk Price → Option (Desk Price)
  unfolding find_agent
  relay_run order_id d = do
    order ← lookup order_id d.orders
    assert (is_funded order.status)
    agent ← find_agent order.agent_id d.agents
    let output = output_for agent.mode order
    some (record d {
      orders =
          put order_id
            (record order {
              relayer_output_commitment = some (sha256_hex output);
              relayer_output_ciphertext = some (encode_private_payload output);
              status = relayed;
            })
            d.orders;
    })

  -- `sha256Hex(output) !== order.relayerOutputCommitment`
  abbrev pub commits_to : Option String → String → Bool
  commits_to none output = false
  commits_to (some commitment) output = str_eq (sha256_hex output) commitment

  pub record Payouts : Type 0 where
    pub agent_amount : Price
    pub relayer_fee : Price

  -- `/api/orders/:id/reveal-settle`, and the payouts that it answers.
  unfoldable pub reveal_settle :
      (order_id : String) → Option String → Desk Price → Option (Desk Price × Payouts)
  unfolding require_string
  reveal_settle order_id body d = do
    output ← require_string body
    order ← lookup order_id d.orders
    assert (is_relayed order.status)
    assert (commits_to order.relayer_output_commitment output)
    some (
      record d {
        orders =
            put order_id (record order { revealed_output = some output; status = settled })
              d.orders;
      },
      record {
        agent_amount = minus order.amount order.relayer_fee;
        relayer_fee = order.relayer_fee;
      },
    )
