-- ===== src/Scanner.antt =====
-- The scanner and its work distribution: src/scanner.cpp and src/rpc/scanner/.
pub mod Queue
pub mod Server
