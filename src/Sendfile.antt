-- ===== src/Sendfile.antt =====
-- core/sendfile: files that are kept open, and the loop that sends them.
pub mod FileCache
