-- ===== src/Model/L1.antt =====
-- src/model/l1.rs: the declarative interpreter of JSON model definitions.
pub mod State
pub mod Eval
pub mod Interpreter
unfoldable pub use Interpreter.{from_def, as_model}
