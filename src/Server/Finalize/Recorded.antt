-- ===== src/Server/Finalize/Recorded.antt =====
-- The entry that is recorded for a bet, against the checks of a claim (src/marketplace-server.ts, lines
-- 2198 to 2322, 3120 to 3190 and 3927 to 3950).
use perfect_weather_predicti.Prelude.{
  ℕ, ◌≡◌, ◌≢◌, ◌⊎◌, refl, ap, sym, ◌∙◌, not, leb, assert, assert-eq-some, >>=-eq-some,
  some-injective, true, false, Option, some, String, str_eq, eq_iff, lookup, put, lookup-put, ◌==◌,
  ◌||◌, arith,
}
use perfect_weather_predicti.O1js.{O1js, IsLawful, NumberText, IsLawfulText}
use perfect_weather_predicti.FastContract.{receipt_commitment_of}
use perfect_weather_predicti.StateStore.{
  StoredReceiptMeta, OperatorState, deserialize_market_leaf, build_markets_merkle_map,
  build_receipts_merkle_map,
}
use perfect_weather_predicti.Server.Receipts.{is_present}
use perfect_weather_predicti.Server.BetContext.{BetParams, BetContext, build_bet_context, add_from}
use perfect_weather_predicti.Server.ClaimContext.{receipt_commitment_from_bet, yes_bet_of}
use perfect_weather_predicti.Server.Finalize.{ok}
use perfect_weather_predicti.Server.Finalize.Intents.{
  bet_intent, bet_receipt_meta, record_intent, side_of_bet,
}

module _ (o : O1js) (l : IsLawful o) (x : NumberText) (tl : IsLawfulText x)
    (public_key_of : String → Option o.PublicKey) (salt_hash_of : String → ℕ) where
  open o use {hash, to_fields}

  abbrev owner_of : o.PublicKey → ℕ
  owner_of wallet = hash (to_fields wallet)

  -- What a built context tells of its bet.
  abbrev Terms : BetParams → BetContext o x public_key_of → Type 0
  Terms p c =
      (key : ℕ) × (wallet : o.PublicKey) × (x.field_of p.market_key ≡ some key)
      × (public_key_of p.wallet_public_key ≡ some wallet)
      × (c.receipt_commitment
          ≡ x.to_string (
              receipt_commitment_of o key p.add_total_bet p.add_yes_bet (owner_of wallet)
                p.salt_hash))
      × (c.receipt_key ≡ x.to_string p.position_key)
      × (c.owner_commitment ≡ x.to_string (owner_of wallet))
      × ((p.add_yes_bet ≡ 0) ⊎ (p.add_yes_bet ≡ p.add_total_bet))

  one_side-cases :
      (yes_bet total_bet : ℕ)
      → (yes_bet == 0 || yes_bet == total_bet) ≡ true
      → (yes_bet ≡ 0) ⊎ (yes_bet ≡ total_bet)
  one_side-cases yes_bet total_bet h = ground arith

  built-Terms :
      (p : BetParams) (s : OperatorState) (c : BetContext o x public_key_of)
      → build_bet_context o x public_key_of p s ≡ some c
      → Terms p c
  unfolding build_bet_context
  built-Terms p s c built =
      let (within, e1, r1) = >>=-eq-some (assert (leb p.add_yes_bet p.add_total_bet)) _ built in
      let (existing, e2, r2) = >>=-eq-some (lookup p.market_key s.markets) _ r1 in
      let (old, e3, r3) = >>=-eq-some (deserialize_market_leaf x existing) _ r2 in
      let (open_market, e4, r4) = >>=-eq-some (assert (not old.resolved)) _ r3 in
      let one_side = p.add_yes_bet == 0 || p.add_yes_bet == p.add_total_bet in
      let (one_sided, e5, r5) = >>=-eq-some (assert one_side) _ r4 in
      let (total, e6, r6) =
        >>=-eq-some (add_from o x public_key_of old.total_position_bet p.add_total_bet) _ r5 in
      let (yes_total, e7, r7) =
        >>=-eq-some (add_from o x public_key_of old.total_yes_position_bet p.add_yes_bet) _ r6 in
      let (totals, e8, r8) = >>=-eq-some (assert (leb yes_total total)) _ r7 in
      let (key, named, r9) = >>=-eq-some (x.field_of p.market_key) _ r8 in
      let (markets, e10, r10) = >>=-eq-some (build_markets_merkle_map x o s) _ r9 in
      let (receipts, e11, r11) = >>=-eq-some (build_receipts_merkle_map x o s) _ r10 in
      let taken = is_present (lookup (x.to_string p.position_key) s.receipts) in
      let (free, e12, r12) = >>=-eq-some (assert (not taken)) _ r11 in
      let (wallet, known, r13) = >>=-eq-some (public_key_of p.wallet_public_key) _ r12 in
      let same = sym (some-injective _ _ r13) in
      (
        key,
        wallet,
        named,
        known,
        ap (λ (q : BetContext o x public_key_of). q.receipt_commitment) same,
        ap (λ (q : BetContext o x public_key_of). q.receipt_key) same,
        ap (λ (q : BetContext o x public_key_of). q.owner_commitment) same,
        one_side-cases p.add_yes_bet p.add_total_bet (assert-eq-some one_side e5),
      )

  yes_bet_of-side :
      (yes_bet total_bet : ℕ)
      → (yes_bet ≡ 0) ⊎ (yes_bet ≡ total_bet)
      → yes_bet_of (side_of_bet yes_bet total_bet) total_bet ≡ yes_bet
  yes_bet_of-side yes_bet total_bet side = ground arith

  -- A bet for which the server has built a context, once its transaction is recorded, has an entry
  -- under the key of its receipt that passes the checks of a claim: of the market and the wallet of
  -- the bet, with a salt, and with the commitment that a claim computes from the entry. The salt of
  -- the intent is the one of the bet and is not empty.
  pub recorded_bet_is_claimable :
      (zkapp : String) (owners : String → String) (tx_status : String → Option String)
      → (confirmed_at now : ℕ) (p : BetParams) (s t : OperatorState)
        (c : BetContext o x public_key_of)
      → (market_date : Option String) (salt tx_hash : String)
      → build_bet_context o x public_key_of p s ≡ some c
      → owners p.wallet_public_key ≡ c.owner_commitment
      → p.salt_hash ≡ salt_hash_of salt
      → salt ≢ ""
      → let i = bet_intent market_date salt now p c.receipt_key c.receipt_commitment in
        (t' : OperatorState) × (m : StoredReceiptMeta) × (key owner : ℕ) × (record_intent zkapp
            owners x tx_status confirmed_at now i tx_hash t
          ≡ ok t')
        × (lookup c.receipt_key t'.receipt_meta ≡ some m)
        × (m.market_key ≡ p.market_key)
        × (m.wallet_public_key ≡ p.wallet_public_key)
        × (m.receipt_salt ≢ "")
        × (x.field_of m.market_key ≡ some key)
        × (x.field_of m.owner_commitment ≡ some owner)
        × (x.to_string (receipt_commitment_from_bet o x public_key_of salt_hash_of key owner m)
            ≡ m.receipt_commitment)
  unfolding record_intent bet_receipt_meta bet_intent
  recorded_bet_is_claimable zkapp owners tx_status confirmed_at now p s t c market_date salt tx_hash
        built owned salted has_salt =
      let (key, wallet, named, known, committed, placed, owner, side) = built-Terms p s c built in
      let i = bet_intent market_date salt now p c.receipt_key c.receipt_commitment in
      let m = bet_receipt_meta zkapp owners t i c.receipt_commitment tx_hash now in
      let commitment =
        receipt_commitment_of o key p.add_total_bet p.add_yes_bet (owner_of wallet) p.salt_hash in
      let not_empty : str_eq c.receipt_commitment "" ≡ false =
        ground
          (arith, committed, eq_iff c.receipt_commitment "", tl.to_string_ne_empty commitment) in
      (
        record t { receipt_meta = put c.receipt_key m t.receipt_meta },
        m,
        key,
        owner_of wallet,
        ground (arith, not_empty),
        ground (
          arith,
          lookup-put c.receipt_key c.receipt_key m t.receipt_meta,
          eq_iff c.receipt_key c.receipt_key,
        ),
        refl,
        refl,
        has_salt,
        named,
        ap x.field_of (owned ∙ owner) ∙ tl.field_of-to_string (owner_of wallet),
        ap
              (λ yes_bet. x.to_string (
                receipt_commitment_of o key p.add_total_bet yes_bet (owner_of wallet)
                  (salt_hash_of salt)))
              (yes_bet_of-side p.add_yes_bet p.add_total_bet side)
            ∙ ap
                (λ salt_hash. x.to_string (
                  receipt_commitment_of o key p.add_total_bet p.add_yes_bet (owner_of wallet)
                    salt_hash))
                (sym salted)
            ∙ sym committed,
      )
