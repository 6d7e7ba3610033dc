-- ===== src/Advisor/Sandbox.antt =====
-- services/advisor/sandbox.py: the slips that a portfolio bets, its balance, and the placement of
-- its coupons. `Slips` makes the slips, `Book` is the part of the database that the module reads
-- and writes, `Place` inserts coupons, `Release` starts
-- paused strategies again. `stake_after_wins` is from constants.py.
pub mod Slips
pub mod Book
pub mod Place
pub mod Release
pub mod BalanceLaws
pub mod LoopLaws
pub mod PlaceLaws
pub mod BookLaws
pub mod OpenLaws
mod Tests
