-- ===== src/Web.antt =====
-- webapp/nodejs/index.js: the handlers of the web server.
pub mod Handler
pub mod Timer
pub mod Serving
pub mod Server
mod Tests
