-- ===== src/Analytics.antt =====
-- server/src/services/analytics: the ingest of the access log, its counters, and their pruning. The parser of a
-- line, and the day and week of a time, are arguments of the functions that use them.
pub mod Ingest
pub mod Lines
pub mod Consumed
pub mod Drained
pub mod Resumed
pub mod Crashed
pub mod Poll
pub mod Rolled
pub mod Store
pub mod Sums
pub mod Counters
mod Tests
use sitey.Prelude.{ℕ, Option, List}
use sitey.Text.{Text}

-- ParsedRequest
pub record Request : Type 0 where
  pub ts : ℕ
  pub service_id : ℕ
  pub host : Text
  pub path : Text
  pub status : ℕ
  pub method : Option Text
  pub content_type : Option Text
  pub bytes : ℕ

abbrev pub Bytes : Type 0
Bytes = List ℕ

-- The identity of an open file.
pub record Identity : Type 0 where
  pub dev : ℕ
  pub ino : ℕ
