-- ===== src/Debug.antt =====
-- webapp/public/debugview.js: the page for debugging. A click on a button adds chairs, and a timer
-- writes the state of the game into the elements of the page.
pub mod Numbers
pub mod Dom
pub mod Table
pub mod Clicks
mod Tests
