-- ===== src/Advisor/Review/Tests.antt =====
-- Two candidates in one coupon, and the same reply on other terms.
use predictor.Prelude.{ℕ, String, ◌≡◌, refl, false, some, [], ◌∷◌}
use predictor.Advisor.Odds.{combined_odd, multiply_odds}
use predictor.Prelude.Decimal.{round_half_up}
use predictor.Advisor.Review.{
  CandidateDecision, Decision, bet, wait, high_shot_volume, LlmDecision, passed, failed, Terms,
  Verdict, Parsed, reply, seen_of, odd_at, odds_at, use_legs, check_coupon, check_coupons,
  check_bets, semantics, review_model_output,
}
use predictor.Advisor.Review.Laws.{IsSound, semantics-IsSound}
use predictor.Advisor.Review.RaiseLaws.{review_model_output-some}

abbrev decision : ℕ → Decision → CandidateDecision
decision k choice = record {
  fixture_id = k;
  decision = choice;
  estimated_probability = record { num = 3; den = 4 };
  confidence = record { num = 1; den = 2 };
  reasons = high_shot_volume ∷ [];
  rationale = "shots";
}

abbrev double : LlmDecision
double = record {
  candidates = decision 7 bet ∷ decision 8 bet ∷ decision 9 wait ∷ [];
  coupons = (8 ∷ 7 ∷ []) ∷ [];
}

abbrev terms : ℕ → Terms
terms max_legs = record {
  playable =
      record { fixture_id = 9; odd = 1400 }
      ∷ record { fixture_id = 7; odd = 1500 }
      ∷ record { fixture_id = 8; odd = 1600 }
      ∷ [];
  open_fixture_ids = λ _. false;
  min_odd = 2000;
  max_legs = max_legs;
}

passes : semantics (terms 3) double ≡ passed tt
unfolding semantics seen_of check_coupons check_coupon use_legs odds_at odd_at check_bets
    combined_odd multiply_odds round_half_up
passes = refl

long : semantics (terms 1) double ≡ failed "too_many_legs"
unfolding semantics seen_of check_coupons check_coupon use_legs odds_at odd_at check_bets
    combined_odd
long = refl

semantics-IsSound_example : IsSound (terms 3) double
semantics-IsSound_example = semantics-IsSound (terms 3) double passes

abbrev reader : String → Parsed
reader _ = reply double

review_model_output-some_example :
    (v : Verdict) × (review_model_output reader "{}" (terms 3) ≡ some v)
review_model_output-some_example = review_model_output-some reader "{}" (terms 3)
