-- ===== src/Record.antt =====
-- src/record: the schema of a table's records, their layout in bytes, and the page of a block
-- that holds them.
pub mod Map
pub mod Schema
pub mod Layout
pub mod Page
