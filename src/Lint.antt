-- ===== src/Lint.antt =====
-- build_support/cpplint.py: the style checker that the build runs over the sources. A text is
-- the list of its characters' codes, and the characters are ASCII.
pub mod Categories
pub mod CppHeaders
pub mod Suppressions
pub mod State
pub mod Report
pub mod Includes
pub mod Brackets
pub mod FileChecks
pub mod Namespaces
pub mod TextInside
pub mod IncludeLine
pub mod SameModule
pub mod TemplateArguments
pub mod Classes
pub mod Tokens
pub mod HeaderGuard
pub mod Extensions
pub mod Classify
pub mod Functions
pub mod Comments
pub mod BracketsBack
pub mod Cleanse
pub mod Strings
pub mod RawStrings
pub mod CleansedLines
pub mod Nesting
