-- ===== src/Rest.antt =====
-- src/rest_server.cpp and src/rpc/light_wallet.cpp: what the server answers about an account.
pub mod AddressInfo
pub mod Balances
pub mod Metas
mod Tests
pub mod Transactions
