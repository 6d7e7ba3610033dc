-- ===== src/Advisor/Settle/Laws.antt =====
-- The verdict on a coupon is the worst of its legs; a leg is won exactly on a final score above its
-- line.
use predictor.Prelude.{
  ℕ, ◌<◌, ◌≡◌, refl, ◌↔◌, true, false, some, List, [], ◌∷◌, String, arith, is_in, is_in→OneOf,
  Option-cases, inl, inr,
}
use predictor.Prelude.Result.{ok}
use predictor.Advisor.Domain.{
  Period, Settlement, FinalScore, irregular_fixture_statuses, finished_fixture_statuses,
}
use predictor.Advisor.Settle.{settle_outcomes, settle_coupon, settle_leg, final_goals}

-- The graver of two outcomes: void, won, pending, manual, lost, in this order.
abbrev pub worse : Settlement → Settlement → Settlement
worse Settlement.lost _ = Settlement.lost
worse _ Settlement.lost = Settlement.lost
worse Settlement.manual _ = Settlement.manual
worse _ Settlement.manual = Settlement.manual
worse Settlement.pending _ = Settlement.pending
worse _ Settlement.pending = Settlement.pending
worse Settlement.won _ = Settlement.won
worse _ Settlement.won = Settlement.won
worse Settlement.void Settlement.void = Settlement.void

abbrev pub worst : List Settlement → Settlement
worst [] = Settlement.void
worst (outcome ∷ outcomes) = worse outcome (worst outcomes)

settle_outcomes-worst : (outcomes : List Settlement) → settle_outcomes outcomes ≡ worst outcomes
settle_outcomes-worst [] = refl
settle_outcomes-worst (Settlement.lost ∷ outcomes) = ground (arith, settle_outcomes-worst outcomes)
settle_outcomes-worst (Settlement.manual ∷ outcomes) =
    ground (arith, settle_outcomes-worst outcomes)
settle_outcomes-worst (_ ∷ outcomes) = ground (arith, settle_outcomes-worst outcomes)

-- The chain of tests is the maximum of the legs in one order of gravity.
pub settle_coupon-worst :
    (outcome : Settlement) (outcomes : List Settlement)
    → settle_coupon (outcome ∷ outcomes) ≡ ok (worst (outcome ∷ outcomes))
unfolding settle_coupon
settle_coupon-worst outcome outcomes = rw (settle_outcomes-worst (outcome ∷ outcomes))

-- The final score of the leg's period is in, and it is above the line.
pub record IsWonLeg (period : Period) (n : ℕ) (score : FinalScore) : Type 0 where
  pub goals : ℕ
  pub known : final_goals period score ≡ some goals
  pub above : n < goals
  pub finished : is_in score.status_short finished_fixture_statuses ≡ true
  pub refreshed : score.final_refreshed ≡ true

finished_regular :
    (s : String)
    → is_in s finished_fixture_statuses ≡ true
    → is_in s irregular_fixture_statuses ≡ false
finished_regular s h = elim (is_in→OneOf s finished_fixture_statuses h) [
  | inl e ↦ rw e
  | inr (inl e) ↦ rw e
  | inr (inr (inl e)) ↦ rw e
  | inr (inr (inr e)) ↦ absurd e
]

-- A leg is settled as won exactly when its match has finished, the final detail has been fetched,
-- and the goals of its own period pass the line; a match that merely awaits an operator, an
-- irregular one and one that is still running never win.
pub settle_leg-won :
    (period : Period) (n : ℕ) (score : FinalScore)
    → (settle_leg period n score ≡ Settlement.won) ↔ IsWonLeg period n score
unfolding settle_leg
settle_leg-won period n score = (sound, complete)
  where
    sound : settle_leg period n score ≡ Settlement.won → IsWonLeg period n score
    sound h = elim (Option-cases (final_goals period score)) [
      | inl e ↦ absurd (ground arith)
      | inr (goals, e) ↦ record {
        goals = goals;
        known = e;
        above = ground arith;
        finished = ground arith;
        refreshed = ground arith;
      }
    ]

    complete : IsWonLeg period n score → settle_leg period n score ≡ Settlement.won
    complete w = ground (arith, finished_regular score.status_short w.finished)
