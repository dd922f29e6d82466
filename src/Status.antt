-- ===== src/Status.antt =====
-- `calcStatus` of nodejs/Game.js: the state of a room at a time, and its next second.
pub mod Types
pub mod Start
pub mod Simulate
pub mod Report
pub mod Balance
pub mod Queues
pub mod Counting
pub mod Pricing
pub mod Books
pub mod Ready
pub mod Opening
pub mod Arrivals
pub mod Notes
pub mod Builds
pub mod Sales
pub mod Ticking
pub mod Forecast
pub mod Outcome
mod Tests
