-- ===== src/Collections.antt =====
-- The standard library's maps, as the program uses them.
pub mod HashMap
pub mod BTreeMap
