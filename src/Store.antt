-- ===== src/Store.antt =====
-- The state database of chronicle-receiver/receiver_plugin.cpp: the rows of its four tables, the
-- orders of their indices, and the two libraries behind it as interfaces (Store/Chainbase,
-- Store/Abieos). A table is the list of its rows in the order of its unique key; block ids are
-- compared only, so they are numbers, and an ABI is the list of its bytes.
pub mod Index
pub mod Chainbase
pub mod Abieos
pub mod Tables
pub mod Sample
