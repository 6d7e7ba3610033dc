-- ===== src/Client.antt =====
-- The HTTP client of the upstream feed (client/football.py, client/errors.py, client/quota.py): its
-- state, its spend window, and a request with its retries.
pub mod State
pub mod Lane
pub mod Window
pub mod Request
pub mod WindowLaws
mod MarkLaws
mod PaceLaws
pub mod RequestLaws
mod Tests
