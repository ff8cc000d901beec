-- ===== src/Model.antt =====
-- src/model.rs: snapshot records, the canonical statement that the notary signs, the journal line,
-- the served document, and the verifier's rebuilding of the statement from a document.
pub mod Anchoring
pub mod Record
pub mod Document
pub mod Seal
pub mod Journal
pub mod Rebuild
