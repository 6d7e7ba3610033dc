-- ===== src/Advisor/Coupons.antt =====
-- Coupons from the proposal to the result: the rows (models/advisor.py), the actions of the operator
-- and the expiry (services/advisor/recommend_ops.py, the handler `_act` of api/advisor_http.py), and
-- the settlement of tables (services/advisor/settle.py).
pub mod Rows
pub mod Actions
pub mod Modify
pub mod Run
pub mod Settle
mod ViewLaws
mod MoveLaws
mod PlaceLaws
mod StepLaws
mod LeaveLaws
mod ActionLaws
mod RunLaws
mod SettleLaws
mod AgainLaws
mod ManualLaws
mod Tests
