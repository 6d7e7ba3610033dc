-- ===== src/Lib.antt =====
-- Predictor: a worker that mirrors a football feed into a database, an advisor that proposes and
-- settles bets on the next goal, and a status process. This library models the parts that decide:
-- what is bet on, priced, settled and booked, which queue rows are claimed and retried, and what the
-- client may still send. Paths are from the repository's root; below the first of a part, and in the
-- files' own comments, they leave out src/predictor/.
--
-- Parts, and how they meet. The worker (src/predictor/worker, services/scheduler.py) claims tasks of
-- the queue, fetches them through the client, and writes fixtures, events and odds. The advisor
-- reads those rows, asks `assess` which matches are bettable, places sandbox coupons and settles
-- them from the same rows. The operator's own bets are settled from them on each worker tick.
--
-- - Prelude: shared types, tests on numbers and texts, integers, decimals at fixed scales, times,
--   the result of a function that may raise `ValueError`.
-- - Advisor.Domain, .Play, .Settle, .Preview, .Odds: src/predictor/services/advisor/domain.py, with
--   `match_minute` of services/live_board/domain.py. `assess`, `settle_leg`, `settle_coupon`,
--   `live_leg_progress`, `live_coupon_progress`, `combined_odd`, `coupon_within_limits`,
--   `active_combined_odd`, `settled_pnl` and `prompt_gate_misses` keep their names. A function that
--   raises returns a `Result`.
-- - Advisor.Candidates: src/predictor/services/advisor/candidates.py, with `over_line_matches` of
--   domain.py: a match of the board and its rows of odds become a priced bet.
-- - Advisor.Review: src/predictor/services/advisor/llm/validate.py, the checks of a reply of the
--   model against the candidates offered; the reader of its text is a parameter.
-- - Advisor.Budget: src/predictor/services/advisor/budget.py, and of cycle.py `spent_today` and
--   `_run_locked` as far as the table of cycles is concerned. Costs and prices are in ten-thousandths
--   of PLN. The lock of `run_cycle` puts the calls one behind the other.
-- - Advisor.Sandbox: src/predictor/services/advisor/sandbox.py over rows of models/advisor.py. `Slips`
--   has `baseline_slips` and `reply_slips`, `Book` the tables and `portfolio_balance`, `Place` the
--   placement with its savepoints and unique indexes, `Release` `release_funded_strategies`.
-- - Advisor.Recommend: the promotion gate of src/predictor/services/advisor/recommend.py, and of
--   recommend_ops.py the changes that an operator makes to a strategy: `promote_strategy`,
--   `set_strategy_status` and `launch_proposed`, with `_sandbox_book` over all settled coupons.
-- - Advisor.Coupons: the coupons of src/predictor/services/advisor/recommend_ops.py and settle.py.
--   `Rows` has the tables, `Actions` and `Modify` the actions of the operator and `expire_due`, `Run`
--   each of them in the transaction of `_act` (api/advisor_http.py), `Settle` the settlement of the
--   tables. The events stand with the newest first; an error carries the tables as it leaves them and
--   whether they are committed.
-- - Quota: src/predictor/services/quota.py. `Windows` forecasts the matches of the day, `Tiers` and
--   `Fit` share the calls out, `Plan` makes `plan_live_budget`, `Spend` has `quota_allows`, the
--   credit of the live context and the share of history. A float is an exact fraction, so a rounding
--   up is that of the exact value; the credit is in parts of a call. The loop of `_interval_only` runs
--   on the distance to its ceiling, which it cannot pass.
-- - Scheduler: src/predictor/services/scheduler.py. `Scheduler` has the decisions on readings of the
--   quota and the sleep, `Tick` one `_tick` over its slots: the handlers, the clock and the stop event
--   are a script, one entry for each slot, and the result is the list of the handlers called.
-- - Lock: src/predictor/services/lock.py. The server's lock functions are a parameter with their
--   documented behaviour; a session that ends loses its lock. Whether the session of a connection still
--   stands is kept beside the object, which learns of a loss only by an error.
-- - Queue: src/predictor/services/queue/core.py over models/etl.py. `Retry`, `Claim`, `Refresh` and
--   `Ensure` have its functions; a table is the list of its rows in the order of their ids.
-- - Client: src/predictor/client/football.py, quota.py and errors.py, and `lane_split` of
--   constants.py. `Window` has the minute marks and the spend window, `Request` a request.
-- - OperatorBets: src/predictor/services/operator_bets.py. `Goals` decides an outcome, `Store` has
--   the operations on the table, `History` the rows and metrics.
--
-- How values are modelled. Odds and kept shares are naturals in thousandths, money is in hundredths
-- (signed where it can be negative), as in the columns; a product of them is exact here, where
-- Python's context keeps 28 digits. Instants are microseconds in UTC. Scores, counts and ids are
-- naturals. Case and white space of a text are those of ASCII. A table is a list, a new row goes to
-- its end, the ids come from a sequence; rows locked by another session are a function from ids.
-- `next_attempt_at` is the instant that its text stands for. The client takes the readings of its
-- clock and the answers of the network as arguments, one exchange for each attempt; the search for
-- the daily limit in a body is the field `says_daily_limit`. The retry loop runs on the number of
-- attempts left, four behind the first, which are the five of HTTP_RETRY_ATTEMPTS; the waits between
-- them and the semaphores change no state that is modelled. All other loops are over lists.
--
-- Not modelled: the schemas, the ingest of the feed, the boards and pages, the language model and
-- its prompts, the exports to Langfuse and Telegram, metrics, logs and the migrations, which move
-- data or are input and output; the texts of a label of odds; the scheduler's run loop and window of
-- history, the proposal of coupons and the withdrawal of a strategy, the counterfactuals, the queue's
-- rules for stale and untracked fixtures; the rates of hits in the history of the operator's bets,
-- which are floats.
pub mod Prelude
pub mod Advisor
pub mod Client
pub mod Lock
pub mod OperatorBets
pub mod Queue
pub mod Quota
pub mod Scheduler
