-- ===== src/Router.antt =====
-- core/router: the radix tree router that the engine uses, and two routers with faster paths.
pub mod Radix
pub mod Fast
pub mod Compiled
