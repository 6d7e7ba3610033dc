-- ===== src/Client/Lane.antt =====
-- `LaneSplit` and `lane_split` of constants.py.
use predictor.Prelude.{ℕ, ◌+◌, ◌-◌, ◌≡◌, leb, if◌then◌else◌, arith}

abbrev pub fetch_concurrency : ℕ
fetch_concurrency = 12

abbrev pub live_lane_match_threshold : ℕ
live_lane_match_threshold = 50

pub record LaneSplit : Type 0 where
  pub live_concurrency : ℕ
  pub history_concurrency : ℕ
  pub live_per_minute : ℕ
  pub history_per_minute : ℕ

unfoldable pub lane_split : ℕ → LaneSplit
lane_split live_matches =
    let busy = leb live_lane_match_threshold live_matches in
    let live_concurrency = if busy then 8 else 2 in
    record {
      live_concurrency = live_concurrency;
      history_concurrency = fetch_concurrency - live_concurrency;
      live_per_minute = if busy then 300 else 120;
      history_per_minute = if busy then 150 else 330;
    }

-- However many matches are live, the two lanes share the whole pool and the whole minute.
pub lane_split_sums :
    (live_matches : ℕ)
    → let split = lane_split live_matches in
      (split.live_concurrency + split.history_concurrency ≡ fetch_concurrency)
      × (split.live_per_minute + split.history_per_minute ≡ 450)
unfolding lane_split
lane_split_sums live_matches = ground arith
