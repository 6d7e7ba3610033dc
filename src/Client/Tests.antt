-- ===== src/Client/Tests.antt =====
-- The laws of the client in a small window, with a server that fails and then answers.
use predictor.Prelude.{ℕ, ◌≡◌, refl, true, false, none, some, [], ◌∷◌, arith, ltb, if◌then◌else◌}
use predictor.Prelude.Int.{pos}
use predictor.Client.State.{Client, Error}
use predictor.Client.Request.{Exchange, Reply, transport_error, answered, raised, attempt, request}
use predictor.Client.WindowLaws.{IsCapped}
use predictor.Client.PaceLaws.{Log, Kept, IsPaced, send_once-IsPaced}
use predictor.Client.RequestLaws.{request-IsCapped, attempt-request-closed}

abbrev fresh : Client
fresh = record {
  locked = true;
  auth_blocked = false;
  quota = none;
  calls_made = 3;
  call_marks = 5 ∷ [];
  live_marks = [];
  history_marks = 5 ∷ [];
  vendor_per_minute = 450;
  live_per_minute = 200;
  history_per_minute = 250;
  live_concurrency = 6;
  history_concurrency = 6;
  window_deadline = some 900;
  window_ceiling = 5;
  window_per_minute = 250;
}

abbrev answer : ℕ → Reply
answer status = answered (record {
  status_code = status;
  remaining_header = some (pos 70);
  limit_header = some (pos 100);
  current_header = none;
  says_daily_limit = false;
})

abbrev flaky : ℕ → Exchange
flaky i = record {
  readings = record { at_deadline = 10; at_history = 10; at_vendor = 10 };
  sent_at = 11;
  now = 12;
  reply = if ltb i 1 then transport_error else answer 200;
}

abbrev forbidden : ℕ → Exchange
forbidden i = record (flaky i) { reply = answer 403 }

request-IsCapped_example : IsCapped (request flaky 12 "/fixtures" fresh).1
request-IsCapped_example =
    request-IsCapped flaky 12 "/fixtures" fresh (record { window = refl; within = omega arith })

attempt-request-closed_example :
    request flaky 99 "/status" (attempt forbidden 4 0 fresh).1
    ≡ (raised Error.auth_blocked_error, (attempt forbidden 4 0 fresh).1)
unfolding attempt
attempt-request-closed_example =
    attempt-request-closed forbidden flaky 4 0 99 "/status" fresh refl refl

-- the calls before
abbrev before : Log
before = record { all = 5 ∷ []; own = 5 ∷ [] }

fresh-Kept : Kept 450 250 9 before fresh
fresh-Kept = record {
  window = refl;
  vendor_budget = refl;
  own_budget = refl;
  all_marks = record { old = []; split = refl; past = tt };
  own_marks = record { old = []; split = refl; past = tt };
}

abbrev later_on : Exchange
later_on = record (flaky 1) {
  readings = record { at_deadline = 20; at_history = 20; at_vendor = 20 };
  sent_at = 21;
}

send_once-IsPaced_example : IsPaced 450 250 (flaky 0 ∷ later_on ∷ []) fresh before
send_once-IsPaced_example =
    send_once-IsPaced 450 250 9 (flaky 0 ∷ later_on ∷ []) before fresh
      (
        record { history = omega arith; vendor = omega arith; mark = omega arith },
        (record { history = omega arith; vendor = omega arith; mark = omega arith }, tt),
      )
      fresh-Kept
