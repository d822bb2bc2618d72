-- ===== src/Js.antt =====
-- JavaScript values as the web client meets them in parsed JSON and untyped fields, with the parts of
-- the language that its code uses on them: property reads, `typeof`, truthiness, `??` and `||`.
-- Numbers are integers: no fraction and no NaN occurs in what the modelled code computes with.
mod Defs
pub mod Env
pub mod Sample
unfoldable pub use Defs.*
