-- ===== src/Wire.antt =====
-- The package internal/wire: the encoding and the operations of the Firebird wire protocol.
pub mod Protocol
pub mod Dpb
pub mod Writer
pub mod StackWriter
pub mod Reader
pub mod Status
pub mod Info
pub mod Describe
pub mod Blr
pub mod Blob
pub mod DateTime
pub mod Numeric
pub mod Decimal
pub mod Int128
pub mod Row
pub mod Fetch
pub mod Tpb
pub mod Connection
pub mod Response
pub mod Execute
