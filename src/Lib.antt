-- ===== src/Lib.antt =====
-- Verification of the file based SQL processors of this repository.
--
-- The repository holds four independent implementations of one program: it reads a file of SQL
-- text, runs its INSERT and SELECT statements on tables in files, and prints rows and errors. The
-- development models all four: member-jihyun/src, which the members chose as the best,
-- member-jiun/src, member-hyeonok/src and member-dragon/src.
--
-- The program of member-jihyun/src. `main` (main.c) splits the text of a file into statements and
-- parses each (parser.c, with the text helpers of utils.c), and the executor (executor.c) runs it:
-- it loads the schema of the table (schema.c) and calls the storage (storage.c), which keeps rows
-- as records in pages of 4096 bytes (page.c) and reads and writes these through a cache of four
-- frames with write-back (buffer_cache.c).
--   Jihyun/Status, Jihyun/Text   status.c, utils.c; Trim is about the loops of util_trim_inplace
--   Jihyun/Sql                   include/ast.h, parser.c: Ast, Scan (tokens, lists, the split into
--                                statements) and Parse (INSERT and SELECT)
--   Jihyun/Page                  page.c; Records says what a page holds, Image is its file form
--   Jihyun/Schema                schema.c
--   Jihyun/Cache                 buffer_cache.c; the state is `Machine`, the cache and the files
--   Jihyun/Storage               storage.c
--   Jihyun/Executor              executor.c
--   Jihyun/Program               main.c
--   Jihyun/Action                functions that return a status and change a state
--   Jihyun/Examples              runs of the definitions, and the theorems at concrete inputs
--
-- The program of member-jiun/src. `main` (main.c, interfaces/cli.c) runs a file of statements
-- (application/processor.c) or reads commands and statements from stdin (interfaces/interactive.c).
-- For each statement the schemas of two tables are loaded (domain/schema.c), the statement is
-- parsed into a plan (domain/parser.c), and the plan is executed (infrastructure/storage.c) on a
-- text file with a line for each row, its values between tabs.
--   Jiun/Text                    shared/text.c
--   Jiun/Types, Jiun/Results     domain/types.h, and results with a message
--   Jiun/Values, Jiun/Parser     domain/parser.c: lists of items; INSERT and SELECT; Parser/Plan and
--                                Parser/Indexes are about what its plans hold
--   Jiun/Split                   domain/parser.c: the split into statements
--   Jiun/Schema                  domain/schema.c, infrastructure/file_io.c
--   Jiun/Cells                   infrastructure/storage.c: the format of a line
--   Jiun/Storage                 infrastructure/storage.c: INSERT and SELECT on the file
--   Jiun/Processor               application/processor.c, shared/error.c
--   Jiun/Interactive             interfaces/interactive.c, interfaces/cli.c, main.c
--   Jiun/Examples                runs of the definitions, and the theorems at concrete inputs
--
-- The program of member-hyeonok/src. `main` (main.c) splits a file into statements (sql_splitter.c),
-- parses each (parser.c) and executes it (executor.c): the schema of its table is loaded
-- (schema.c), and rows are appended to a text file or read from it (storage.c). Messages come from
-- error.c.
--   Hyeonok/Text                 util.c, and the words of parser.c
--   Hyeonok/Ast, Hyeonok/Parser  ast.h, parser.c
--   Hyeonok/Split                sql_splitter.c
--   Hyeonok/Schema               schema.c
--   Hyeonok/Storage              storage.c; Fields and Lines are about what its files hold
--   Hyeonok/Executor             executor.c; Columns and Fills say, by the names of columns, what a
--                                SELECT is to show and an INSERT to store, Errors what a failure is
--   Hyeonok/Program              error.c, main.c
--   Hyeonok/Examples             runs of the definitions, and the theorems at concrete inputs
--
-- The program of member-dragon/src. `main` (main.c) loads all schemas of the directory (schema.c)
-- and reads the statements of a file one by one; each is parsed into a command (parser.c). The
-- executor (executor.c) runs INSERT, SELECT, DELETE and UPDATE through a table of storage
-- operations (types.h), which file_storage.c implements: a table is a text file with a line for
-- each row, each value behind its length. A SELECT reads all rows and then applies WHERE, ORDER
-- BY and LIMIT; a DELETE or UPDATE writes the file again.
--   Dragon/Types                 types.h
--   Dragon/Values                executor.c: the comparison of values
--   Dragon/Rows, Dragon/Storage  file_storage.c: the format of a row, and the operations
--   Dragon/Tables                executor.c: WHERE, ORDER BY, LIMIT and UPDATE on the rows;
--                                Update says what SET clauses are to make of a row
--   Dragon/Executor              executor.c: the statements; Shown says, by the names of columns, what
--                                a SELECT is to show
--   Dragon/Words, Dragon/Parser  parser.c: words, values and clauses; the statements
--   Dragon/Schema                schema.c
--   Dragon/Program               main.c
--   Dragon/Examples              runs of the definitions, and the theorems at concrete inputs
--
-- Shared by the models:
--   Libc/Text, Libc/Disk         the calls of ctype.h and string.h; the files, as stdio sees them
--   Prelude                      Boolean tests, lists, 32-bit words and their bytes; Spec has what
--                                the output and the rows of a statement are compared with
--
-- The model. Every function of the source is a function by clauses of the same name, the `util_`
-- of utils.c left out; a loop with its own branches is a helper. C strings are the lists of their
-- bytes before the NUL, and a pointer into a string is the rest of the string from there. A
-- pointer to a frame of the cache is the index of the frame. The arithmetic of uint32_t and
-- uint64_t is written out with its remainder. The character classes of libc are those of the C
-- locale, and words in memory are little-endian. A function that returns a status is an `Action`:
-- it gives the result or the failure, and in both cases the new state. A function of
-- member-jiun/src that sets `*err_msg` returns a `Result`, and a parser of member-hyeonok/src
-- that returns 0 or 1 an `Option`. What a program prints to stdout and stderr is part of its
-- state (`Session`, `Streams`, `Process`); what stdin gives, the names that readdir gives and the
-- directory that getcwd gives are arguments of `main`. The buffers of fixed size cut what is
-- read, as in the source.
--
-- The files (Libc/Disk) are not code of the repository: a path has contents or not, and may be
-- read or written or not. fopen fails as these permissions say; fseek, ftell, fwrite and fclose
-- succeed; fread is short exactly at the end of the file.
--
-- Fuel and bounds. find_json_key and read_columns of schema.c run on the length of the text plus
-- one, and each of their rounds shortens the text; the loop over the records of a page runs on
-- the page's row_count, behind which the cursor stops by its own test; decimal numbers have
-- twenty digits, enough for uint64_t. In member-jiun/src the two loops of domain/schema.c run on
-- the length of the text plus one, and where that were not enough the result would be
-- `out_of_fuel`, which is no result of the program; the lists of items end with the room of
-- MAX_LIST_ITEMS.
-- The lists of parser.c and schema.c in member-hyeonok/src run on the length of the text plus
-- one; each round reads a character at least. In member-dragon/src the lists of a statement have
-- room for 32 items, and the columns of a schema file run on the length of the text plus one. The
-- theorems on the cache are for pages with numbers below 2^20, since the program computes the
-- offset of a page in 32 bits, and for paths below 512 bytes, the size of a frame's path.
--
-- What a client of the cache sees (`view` in Jihyun/Cache/View) is a map from file and page number
-- to page: the page in a frame, or else the one in the file. `Sound` is the invariant: each page
-- is in one frame at most, clean frames agree with the files, the frames are within their bounds,
-- and every file may be read and written. A `Table` (Jihyun/Storage/Table) says that page `k` of a
-- file, as it is seen, holds the `k`-th of some lists of rows.
--
-- Not modelled: failures of malloc; the freeing of memory, but for the double free that the parser
-- of member-jihyun/src can run into, which is a result of its own (`double_free`, for which `main`
-- has `undefined`); reads behind the payload of a damaged page, and behind the end of a statement
-- that is shorter than the keyword it is tested for; the build of member-jiun/src with readline and
-- its completion of words; the overflow of an int by a LIMIT of 2^31 or more in member-dragon/src;
-- the demo-ui of member-jihyun.
pub mod Prelude
pub mod Libc
pub mod Jihyun
pub mod Jiun
pub mod Hyeonok
pub mod Dragon
