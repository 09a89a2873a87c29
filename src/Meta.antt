-- ===== src/Meta.antt =====
-- The Meta service (meta/backend): scanning of resources into a tree of nodes with their items.
pub mod Objects
pub mod Models
pub mod Store
pub mod Nodes
pub mod Connection
pub mod SchemaScan
pub mod ScanService
pub mod ResourceService
pub mod Examples
pub mod Persist
pub mod ObjectScan
pub mod Tree
pub mod S3Scanner
