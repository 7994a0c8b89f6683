-- ===== src/Crypto.antt =====
-- Hashes and commitments (packages/crypto/src) over two functions of third-party packages.
pub mod Primitives
pub mod Hash
pub mod Field
pub mod Signed
pub mod Notes
pub mod FieldMerkle
pub mod Paths
pub mod FieldPaths
pub mod Intents
pub mod Binding
mod Examples
