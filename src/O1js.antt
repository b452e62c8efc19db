-- ===== src/O1js.antt =====
-- What the program uses of the o1js package (package.json, "o1js"), which is not in the repository.
-- The operations are parameters of every definition that calls them, and what the program relies
-- on is stated by the laws of `IsLawful`. A `Field` or `UInt64` is the number that it holds, a
-- `Bool` the flag: their tests (`assertEquals`, `lessThanOrEqual`, `greaterThan`) compare these. A
-- failed assertion, in a circuit or outside, is `none`.
mod Interface
mod Text
pub mod Unary
pub mod Witnesses
pub mod Concrete
pub use Interface.*
pub use Text.*
