-- ===== src/Lib.antt =====
-- SimpleDB keeps tables in files. This library models the storage and locking core of it, under
-- src/, and the style checker that its build runs over the sources, build_support/cpplint.py.
--
-- The parts and the files that model them:
--
-- * File (src/file): Block is `BlockId`; Page is `Page`, whose state is its list of bytes; Manager
--   is `FileManager`, whose state holds the bytes of every file. `get_file`, `read`, `write`,
--   `append` and `file_length` are GetFile, Read, Write, Append and Length. Page/Laws and
--   Manager/Blocks have the laws of reading behind writing.
-- * Log (src/log): `LogManager` and `LogIterator`. The manager keeps the last block of the log in
--   a page, fills it from its end to its front, and asks the file manager for a new block when a
--   record does not fit. Log/Records says what it means that a log holds a list of records;
--   Append, Iterate and Restart show it for the operations.
-- * Lock (src/txn/concurrency): `LockTable` with one number for each block, and
--   `ConcurrencyManager` with the locks of one transaction. Lock/System puts several transactions
--   on one table and interleaves their requests.
-- * Buffer (src/buffer): `Buffer`, and in Manager the pool of `BufferManager`. Buffer/Invariant
--   says what holds between the calls; Pins shows it for requests, WriteAhead is about writing
--   buffers.
-- * Recovery (src/txn/recovery): the log records as values and as bytes, and in Undo the loops of
--   `DoRollback` and `DoRecover`.
-- * Transaction (src/txn/transaction.cpp): `SetInt` and `SetString` on a buffer, with their log
--   records, and the Undo of the records; Logged says what they do to the log and the buffer;
--   BufferList is the class of that name. Restore and Rollback put the page, the log, the records
--   and the buffer together.
-- * Lint (build_support/cpplint.py): Categories and CppHeaders are its tables, Suppressions the
--   NOLINT comments, State `_CppLintState`, Report `_ShouldPrintError` and `Error`, Includes
--   `_IncludeState`, Brackets the search for the end of an expression.
-- * Record (src/record): Schema and Layout are the classes of these names, with lengths and
--   offsets that may be negative, and Page is `RecordPage`: reading and `Format` on the bytes of
--   its block, the logged changes on its buffer with the log. Page/Positions is about where slots
--   and fields stand. Schema/Adds runs the operations of a schema one behind the other;
--   Layout/Bounds is about the offsets; Page/Frame says what a write to a range leaves, and
--   Fields, Flags, Slots, Insert and Format show it for the operations.
-- * Lint, continued: BracketsBack is the search for the start of an expression, Comments the
--   removal of comments over several lines, Functions `_FunctionState` with
--   CheckForFunctionLengths in Lines, FileChecks the checks of a whole file and the search for the
--   previous line, Extensions the sets of extensions, Classify `_ClassifyInclude` with the
--   functions of `os.path` as parameters. HeaderGuard is `CheckForHeaderGuard` with the name of
--   the guard as an argument; Namespaces decides on the indentation in a namespace, and Tokens is
--   `CheckAltTokens` and `IsCppString`.
-- * Lint, continued: Cleanse is `CleanseComments`, RawStrings `CleanseRawStrings`, Strings
--   `_CollapseStrings`, and CleansedLines the class of that name, which calls all of them. Nesting
--   is the stack of `NestingState`, with the loops of `Update` over namespaces and over tokens in
--   Declarations and Tokens.
-- * Lint, continued: TextInside is `_GetTextInside`, Classes `_ClassInfo`, TemplateArguments
--   `InTemplateArgumentList`, SameModule `FilesBelongToSameModule`, and IncludeLine
--   `CheckIncludeLine`, which calls Includes, Classify and Extensions.
-- * Prelude passes the library's names on and holds bytes, integers and texts. Tests holds runs on
--   small inputs.
--
-- The log calls the file manager, and both use the page; a buffer calls the file manager and the
-- log, and the log records are written with the page and kept by the log; a transaction calls the
-- buffer and writes log records. A record page calls the transaction for each access to its block.
-- The style checker's Report calls Suppressions and State, and its cleansed lines are what the
-- checks of lines read.
--
-- Numbers: an `int` in a page is four bytes, little endian, in two's complement; the other numbers
-- of the C++ code do not wrap in the model. An access that the code would make outside of a page
-- or of a list is `none`. A short read leaves the page filled with zeros, as in the code.
--
-- Fuel: `Log.read_all` is the loop of the iterator's clients on fuel; fuel above the number of
-- records is enough, and the theorem on it says so. `Lint.Comments.remove_loop` runs on one more
-- than the number of lines, which its theorem shows to be enough. `begin_loop` and `collapse_loop`
-- of the cleansed lines run on one more than the length of the line, which is enough as well; so
-- it is for `consume_namespaces`. The loops of a record page run on one more than the size of the
-- block, which is more than the slots that it has when no length is negative (with a slot of no
-- bytes the loops of the code do not end), and `in_template_from` on one more than the size of the
-- file, which its theorem shows to be enough. All other loops are structural.
--
-- Not modelled: the errors of the file system, mutexes, the clock and the condition variable of
-- the lock table (a request has the outcome that its wait ends with). `manager_exclusive_lock`
-- runs both halves of an exclusive request at once; in Lock/System they are two events, between
-- which others may stand. The wait of `BufferManager::Pin` is left out like that of the lock
-- table. Of SimpleDB the transactions but for `SetInt`, `SetString`, Undo and the list of buffers
-- (without the lock, the look-up of the buffer, and the pins around Undo), the table scan,
-- indexes, the parser, the queries and plans; of cpplint most checks of single lines, the
-- declarations of classes in the nesting state and the layout of reports; the driver of
-- clang-tidy.
pub mod Buffer
pub mod File
pub mod Lint
pub mod Lock
pub mod Log
pub mod Prelude
pub mod Record
pub mod Recovery
pub mod Tests
pub mod Transaction
