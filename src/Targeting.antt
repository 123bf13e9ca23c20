-- ===== src/Targeting.antt =====
-- The targeting rules of primitives/src/targeting.rs and primitives/src/targeting/: the values and
-- numbers (Values, I64, Operators, Texts), the rules and the variables they read (Rules, Fields,
-- Input), their evaluation (Eval, Multiple), and what an event pays under them (Payout, from
-- sentry/src/payout.rs).
pub mod Values
pub mod I64
pub mod Operators
pub mod Texts
pub mod Rules
pub mod Eval
pub mod Fields
pub mod Input
pub mod Multiple
pub mod Frame
pub mod Stop
pub mod Conditions
