-- ===== src/Publish.antt =====
-- src/server/docs-publish: the publication of a repository's Markdown files to a collection of documents.
pub mod Sources
pub mod Repo
pub mod Calls
pub mod Accounted
pub mod Banner
pub mod Settled
mod Tests
