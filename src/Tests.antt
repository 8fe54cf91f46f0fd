-- ===== src/Tests.antt =====
-- Tests of the definitions, and the theorems at concrete inputs.
mod LogTests
mod LockTests
mod LintTests
mod StyleTests
mod BufferTests
mod RecoveryTests
mod CleanseTests
mod NestingTests
mod TransactionTests
mod RecordTests
mod IncludeTests
