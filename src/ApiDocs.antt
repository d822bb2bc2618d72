-- ===== src/ApiDocs.antt =====
-- web/src/pages/ApiDocs.tsx: the document of the API with its groups, the views of its schemas, and the
-- samples of code. Tags are no numbers.
mod Defs
mod Views
mod Samples
mod Reference
pub mod Laws
mod Tests
unfoldable pub use Defs.*
unfoldable pub use Views.*
unfoldable pub use Samples.*
unfoldable pub use Reference.*
