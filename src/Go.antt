-- ===== src/Go.antt =====
-- What the program uses of the Go language and its library, and of SQL.
pub mod Float
pub mod Time
pub mod Text
pub mod Sql
