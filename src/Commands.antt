-- ===== src/Commands.antt =====
-- cmd: the commands `chainapi` and `wscat`.
pub mod ChainApi
pub mod Wscat
