-- ===== src/Trie.antt =====
-- package trie: the Merkle Patricia trie over nodes that may still lie in the store.
pub mod Nodes
pub mod Paths
pub mod Trees
pub mod Reading
pub mod Effects
pub mod Edits
pub mod Inserting
pub mod Shrinking
pub mod Deleting
pub mod Roots
pub mod Compact
mod Tests
