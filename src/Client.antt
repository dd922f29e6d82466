-- ===== src/Client.antt =====
-- public/game.js, the state of the game in the browser.
pub mod Clock
pub mod Notation
pub mod Room
pub mod Items
pub mod View
pub mod Page
mod Tests
