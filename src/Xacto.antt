-- ===== src/Xacto.antt =====
-- The transactional store of `xacto/`: registry of clients, protocol, transactions, blobs and service.
pub mod Registry
pub mod Protocol
pub mod Transaction
pub mod Data
pub mod Service
mod Tests
