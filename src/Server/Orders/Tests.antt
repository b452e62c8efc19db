-- ===== src/Server/Orders/Tests.antt =====
-- An order of the demo agent, from its creation to its end.
use perfect_weather_predicti.Prelude.{ℕ, ◌≡◌, refl, true, none, some, [], ◌∷◌, lookup, put}
use Prim.Native.String.{◌++◌}
use perfect_weather_predicti.Server.Orders.{
  random_demo, funded, relayed, settled, AgentModel, EscrowOrder, Desk, OrderBody, Prices, Texts,
  Payouts, create_order, relay_run, reveal_settle, require_string, find_agent,
}
use perfect_weather_predicti.Server.Orders.Settled.{
  start, step, created, ran, revealed, IsCoherent, reachable_order-IsCoherent,
}

abbrev whole : Prices ℕ
whole = record { positive = λ n. true; relayer_fee_of = λ n. 1; minus = λ a b. a }

abbrev marked : Texts
marked = record {
  sha256_hex = λ t. "#" ++ t;
  encode_private_payload = λ t. t;
  decode_private_payload = λ t. t;
  random_prediction_output = λ t. "70";
}

abbrev agent : AgentModel ℕ
agent = record {
  id = "demo";
  name = "Demo";
  owner = "protocol";
  price = 50;
  description = "";
  mode = random_demo;
}

abbrev empty_desk : Desk ℕ
empty_desk = record { agents = agent ∷ []; orders = [] }

abbrev body : OrderBody ℕ
body = record {
  buyer = some "B62a";
  wallet_public_key = some "B62a";
  agent_id = some "demo";
  prompt = some "rain";
}

abbrev order : EscrowOrder ℕ
order = record {
  id = "a";
  buyer = "B62a";
  agent_id = "demo";
  amount = 50;
  prompt_hash = "#rain";
  encrypted_prompt = "rain";
  status = funded;
  relayer_fee = 1;
  relayer_output_commitment = none;
  relayer_output_ciphertext = none;
  revealed_output = none;
  created_at_unix_ms = 5;
}

abbrev relayed_order : EscrowOrder ℕ
relayed_order = record order {
  status = relayed;
  relayer_output_commitment = some "#70";
  relayer_output_ciphertext = some "70";
}

abbrev settled_order : EscrowOrder ℕ
settled_order = record relayed_order { status = settled; revealed_output = some "70" }

abbrev with_order : EscrowOrder ℕ → Desk ℕ
with_order o = record empty_desk { orders = ("a", o) ∷ [] }

creates : create_order whole marked "a" 5 body empty_desk ≡ some (with_order order)
unfolding create_order require_string find_agent put
creates = refl

runs : relay_run whole marked "a" (with_order order) ≡ some (with_order relayed_order)
unfolding relay_run find_agent put lookup
runs = refl

abbrev payouts : Payouts whole marked
payouts = record { agent_amount = 50; relayer_fee = 1 }

reveals :
    reveal_settle whole marked "a" (some "70") (with_order relayed_order)
    ≡ some (with_order settled_order, payouts)
unfolding reveal_settle require_string put lookup
reveals = refl

finds : lookup "a" (with_order settled_order).orders ≡ some settled_order
unfolding lookup
finds = refl

reachable_order-IsCoherent_example : IsCoherent whole marked settled_order
reachable_order-IsCoherent_example =
    reachable_order-IsCoherent whole marked (with_order settled_order) "a" settled_order
      (step (step (step (start (agent ∷ [])) (created "a" 5 body creates)) (ran "a" runs))
        (revealed "a" (some "70") payouts reveals))
      finds
