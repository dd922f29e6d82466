-- ===== src/Gui.antt =====
-- webapp/public/gui.js: the scenes of the game.
pub mod Assets
pub mod Nodes
pub mod Opening
pub mod Buttons
pub mod Stage
pub mod Main
pub mod Clicks
mod Tests
