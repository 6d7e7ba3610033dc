-- ===== src/Advisor/Preview/Laws.antt =====
-- The live preview and the ledger agree: coupon by coupon on every combination of legs, and leg by
-- leg once the match has finished.
use predictor.Prelude.{
  ℕ, ◌≡◌, refl, Bool, true, false, Option, List, [], ◌∷◌, map, String, arith, is_in, is_in→OneOf,
  any, all, inl, inr,
}
use predictor.Prelude.Result.{ok, ◌>>=◌}
use predictor.Advisor.Domain.{
  Period, Settlement, LiveProgress, FinalScore, LiveScore, finished_fixture_statuses,
  regulation_ended, extra_time_ended, extra_time_statuses, in_play_pause,
}
use predictor.Advisor.Settle.{is_lost, is_manual, is_pending, is_void, settle_coupon, settle_leg}
use predictor.Advisor.Preview.{
  is_lost_leg, is_unknown, is_open, is_void_leg, live_leg_progress, live_coupon_progress,
}

-- how the preview shows a ledger outcome of a leg
abbrev pub shown : Settlement → LiveProgress
shown Settlement.won = LiveProgress.hit
shown Settlement.lost = LiveProgress.lost
shown Settlement.void = LiveProgress.void
shown Settlement.pending = LiveProgress.open_leg
shown Settlement.manual = LiveProgress.unknown

module _ {A B : Type 0} (f : A → B) (p : B → Bool) (q : A → Bool)
    (same : (a : A) → p (f a) ≡ q a) where
  any-map : (xs : List A) → any p (map f xs) ≡ any q xs
  any-map [] = refl
  any-map (x ∷ xs) = cc (same x, any-map xs)

  all-map : (xs : List A) → all p (map f xs) ≡ all q xs
  all-map [] = refl
  all-map (x ∷ xs) = cc (same x, all-map xs)

lost_shown : (v : Settlement) → is_lost_leg (shown v) ≡ is_lost v
lost_shown v = ground arith

unknown_shown : (v : Settlement) → is_unknown (shown v) ≡ is_manual v
unknown_shown v = ground arith

open_shown : (v : Settlement) → is_open (shown v) ≡ is_pending v
open_shown v = ground arith

void_shown : (v : Settlement) → is_void_leg (shown v) ≡ is_void v
void_shown v = ground arith

-- The preview of a coupon follows from its legs by the same precedence as the settlement: to show
-- the legs and then combine is to combine and then show.
pub live_coupon_progress-shown :
    (outcomes : List Settlement)
    → live_coupon_progress (map shown outcomes) ≡ (do v ← settle_coupon outcomes; ok (shown v))
unfolding live_coupon_progress settle_coupon
live_coupon_progress-shown [] = refl
live_coupon_progress-shown (x ∷ xs) = ground (
  arith,
  any-map shown is_lost_leg is_lost lost_shown xs,
  any-map shown is_unknown is_manual unknown_shown xs,
  any-map shown is_open is_pending open_shown xs,
  all-map shown is_void_leg is_void void_shown xs,
)

-- The scoreboard of a finished match, with whatever the live goals column says.
abbrev pub board : FinalScore → Option ℕ → Option ℕ → LiveScore
board score goals_home goals_away = record {
  status_short = score.status_short;
  goals_home = goals_home;
  goals_away = goals_away;
  fulltime_home = score.fulltime_home;
  fulltime_away = score.fulltime_away;
  extratime_home = score.extratime_home;
  extratime_away = score.extratime_away;
}

-- where a person must settle a leg, the preview of the finished match says lost
abbrev pub shown_final : Settlement → LiveProgress
shown_final Settlement.manual = LiveProgress.lost
shown_final v = shown v

finished_ended :
    (s : String)
    → is_in s finished_fixture_statuses ≡ true
    → (is_in s regulation_ended ≡ true)
      × (is_in s extra_time_ended ≡ true)
      × (is_in s extra_time_statuses ≡ false)
      × (is_in s in_play_pause ≡ false)
finished_ended s h = elim (is_in→OneOf s finished_fixture_statuses h) [
  | inl e ↦ rw e (refl, refl, refl, refl)
  | inr (inl e) ↦ rw e (refl, refl, refl, refl)
  | inr (inr (inl e)) ↦ rw e (refl, refl, refl, refl)
  | inr (inr (inr e)) ↦ absurd e
]

-- Once a match has finished and its detail has been fetched, the preview of a leg is the outcome
-- that the ledger settles, whatever the live goals column says; only a missing final score, which
-- the ledger hands to a person, is shown as lost.
pub live_leg_progress-settle_leg :
    (period : Period) (n : ℕ) (score : FinalScore) (goals_home goals_away : Option ℕ)
    → is_in score.status_short finished_fixture_statuses ≡ true
    → score.final_refreshed ≡ true
    → live_leg_progress period n (board score goals_home goals_away)
      ≡ shown_final (settle_leg period n score)
unfolding live_leg_progress settle_leg
live_leg_progress-settle_leg period n score goals_home goals_away h r =
    ground (arith, finished_ended score.status_short h)
