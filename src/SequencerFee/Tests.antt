-- ===== src/SequencerFee/Tests.antt =====
-- A pool with five fees, of which the fourth smallest is suggested.
use perfect_weather_predicti.Prelude.{
  ℕ, ◌*◌, ◌≤◌, ◌<◌, ◌≡◌, ◌⊎◌, refl, true, some, Option, [], ◌∷◌, length, String, ℤ, pos,
}
use perfect_weather_predicti.Prelude.Sorting.{sort_by, insert_by}
use perfect_weather_predicti.SequencerFee.{
  RawFee, number, text, other, Pool, SuggestedFee, sequencer_mempool_p75, fallback, fallback_fee,
  get_suggested_sequencer_fee, suggest, p75_of, positive_fees, parse_raw_fee_int,
}
use perfect_weather_predicti.SequencerFee.Percentile.{count_le, fees_of, suggested_fee_covers}

abbrev keep : String → String
keep t = t

abbrev parse_any : String → Option ℤ
parse_any t = some (pos 300_000_000)

abbrev fee : ℕ → RawFee
fee n = number (record { positive = true; rounded = n })

abbrev pool : Pool
pool = record {
  zkapp_commands = fee 500_000_000 ∷ text "300000000" ∷ other ∷ [];
  user_commands = fee 400_000_000 ∷ fee 100_000_000 ∷ fee 200_000_000 ∷ [];
}

suggests_fourth :
    get_suggested_sequencer_fee keep parse_any (some pool)
    ≡ some (record { fee_raw = 400_000_000; source = sequencer_mempool_p75 })
unfolding get_suggested_sequencer_fee suggest p75_of positive_fees parse_raw_fee_int sort_by
    insert_by
suggests_fourth = refl

suggested_fee_covers_example :
    ((fees_of keep parse_any (some pool) ≡ [])
      × (get_suggested_sequencer_fee keep parse_any (some pool) ≡ some fallback_fee))
    ⊎ ((r : SuggestedFee) × (get_suggested_sequencer_fee keep parse_any (some pool) ≡ some r)
        × (r.source ≡ sequencer_mempool_p75)
        × (fallback ≤ r.fee_raw)
        × (3 * length (fees_of keep parse_any (some pool))
            < 4 * count_le r.fee_raw (fees_of keep parse_any (some pool))))
suggested_fee_covers_example = suggested_fee_covers keep parse_any (some pool)
