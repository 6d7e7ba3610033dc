-- ===== src/Advisor/Tests.antt =====
-- The laws of the advisor at one match, a few coupons, and a small portfolio.
use predictor.Prelude.{
  ◌+◌, ◌*◌, ◌^◌, ◌≤◌, ◌<◌, ◌≡◌, ◌↔◌, refl, true, false, none, some, [], ◌∷◌, map, arith,
}
use predictor.Prelude.Time.{aware}
use predictor.Prelude.Result.{ok, ◌>>=◌}
use predictor.Advisor.Domain.{
  regulation, won, lost, void, pending, CandidateView, LineQuote, PlayLimits, FinalScore,
  period_for,
}
use predictor.Advisor.Play.{assess, match_minute}
use predictor.Advisor.Play.Laws.{IsBettable, bet_on, assess_sound, assess_complete}
use predictor.Advisor.Settle.{settle_leg, settle_coupon}
use predictor.Advisor.Settle.Laws.{IsWonLeg, worst, settle_leg-won, settle_coupon-worst}
use predictor.Advisor.Preview.{live_leg_progress, live_coupon_progress}
use predictor.Advisor.Preview.Laws.{
  shown, shown_final, board, live_leg_progress-settle_leg, live_coupon_progress-shown,
}
use predictor.Advisor.Odds.{combined_odd}
use predictor.Advisor.Odds.Laws.{product, combined_odd_near}

abbrev quote_now : LineQuote
quote_now = record { odd = some 1650; tradable = true; captured_at = some (aware 900) }

abbrev match_now : CandidateView
match_now = record {
  fixture_id = 7;
  status_short = "2H";
  elapsed = some 61;
  extra = none;
  goals_home = some 1;
  goals_away = some 0;
  extratime_home = none;
  extratime_away = none;
  quote = some quote_now;
  market_known = true;
  in_open_coupon = false;
  state_rejected = false;
}

abbrev limits_now : PlayLimits
limits_now = record { max_minute_regulation = 80; max_minute_extra = 110; max_quote_age = 300 }

abbrev bettable : IsBettable match_now limits_now 1000
unfolding period_for match_minute
bettable = record {
  in_play = record {
    period = regulation;
    home = 1;
    away = 0;
    minute = 61;
    in_period = refl;
    home_known = refl;
    away_known = refl;
    clock = refl;
    in_time = omega arith;
  };
  fresh = record {
    line = quote_now;
    odd = 1650;
    captured = 900;
    quoted = refl;
    priced = refl;
    above_one = omega arith;
    tradable = refl;
    stamped = refl;
    past = omega arith;
    recent = omega arith;
  };
  market = refl;
  uncommitted = refl;
  unrejected = refl;
}

assess_sound_example : IsBettable match_now limits_now 1000
unfolding assess
assess_sound_example = assess_sound match_now limits_now 1000 refl

assess_complete_example : assess match_now limits_now (aware 1000) ≡ bet_on match_now regulation 1 0
unfolding bettable
assess_complete_example = assess_complete match_now limits_now 1000 bettable

abbrev final : FinalScore
final = record {
  status_short = "FT";
  fulltime_home = some 2;
  fulltime_away = some 1;
  extratime_home = none;
  extratime_away = none;
  final_refreshed = true;
  awaiting_manual = false;
}

live_leg_progress-settle_leg_example :
    live_leg_progress regulation 2 (board final (some 2) none)
    ≡ shown_final (settle_leg regulation 2 final)
live_leg_progress-settle_leg_example =
    live_leg_progress-settle_leg regulation 2 final (some 2) none refl refl

live_coupon_progress-shown_example :
    live_coupon_progress (map shown (won ∷ pending ∷ []))
    ≡ (do v ← settle_coupon (won ∷ pending ∷ []); ok (shown v))
live_coupon_progress-shown_example = live_coupon_progress-shown (won ∷ pending ∷ [])

settle_leg-won_example : (settle_leg regulation 2 final ≡ won) ↔ IsWonLeg regulation 2 final
settle_leg-won_example = settle_leg-won regulation 2 final

settle_coupon-worst_example :
    settle_coupon (void ∷ lost ∷ won ∷ []) ≡ ok (worst (void ∷ lost ∷ won ∷ []))
settle_coupon-worst_example = settle_coupon-worst void (lost ∷ won ∷ [])

combined_odd_near_example :
    let D = 1000 ^ 1 in
    (2 * (2145 * D) ≤ 2 * product (1650 ∷ 1300 ∷ []) + D)
    × (2 * product (1650 ∷ 1300 ∷ []) < 2 * (2145 * D) + D)
unfolding combined_odd
combined_odd_near_example = combined_odd_near 1650 (1300 ∷ []) {t = 2145} refl
