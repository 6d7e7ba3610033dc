-- ===== src/Advisor.antt =====
-- The advisor (services/advisor): which matches may be bet on, how coupons are priced and settled,
-- the sandbox portfolios, and the changes of a strategy's status.
pub mod Domain
pub mod Play
pub mod Settle
pub mod Preview
pub mod Odds
pub mod Sandbox
pub mod Recommend
pub mod Coupons
pub mod Candidates
pub mod Review
pub mod Budget
mod Tests
