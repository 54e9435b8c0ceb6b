-- ===== src/Dragon/Program.antt =====
-- main.c. What getcwd and readdir give are arguments.
use jungle_week6_coding_sess.Prelude.{
  ℕ, Bool, true, false, not, ◌&&◌, Option, Bytes, List, [], ◌∷◌, ◌++◌, ◌==◌, if◌then◌else◌, take,
  codes, maybe,
}
use jungle_week6_coding_sess.Libc.Text.{is_space}
use jungle_week6_coding_sess.Libc.Disk.{
  Disk, FilePath, Opened, missing, denied, opened, open_read, c_string,
}
use jungle_week6_coding_sess.Dragon.Types.{TableDef, StorageOps, err_invalid_query, err_file_open}
use jungle_week6_coding_sess.Dragon.Parser.{parse_sql}
use jungle_week6_coding_sess.Dragon.Schema.{load_schemas}
use jungle_week6_coding_sess.Dragon.Storage.{file_storage_create}
use jungle_week6_coding_sess.Dragon.Executor.{Process, print_error, execute_command}

unfoldable pub has_non_whitespace : Bytes → Bool
has_non_whitespace [] = false
has_non_whitespace (c ∷ text) =
    let later = has_non_whitespace text in if not (is_space c) then true else later

-- The buffer of 8192 bytes, as the C string that it is taken for: append_statement_char drops what
-- does not fit.
unfoldable pub statement_of : Bytes → Bytes
statement_of characters = c_string (take 8191 characters)

-- The statements that the calls of read_next_statement give, one after the other: the quoting, the
-- characters of the statement so far, and the rest of the file.
unfoldable pub read_statements : Bool → Bytes → Bytes → List Bytes
read_statements in_quote characters [] =
    if has_non_whitespace (statement_of characters) then statement_of characters ∷ [] else []
read_statements in_quote characters (c ∷ []) =
    let text = statement_of (characters ++ c ∷ []) in
    if c == b';' && not in_quote
    then text ∷ []
    else if has_non_whitespace text
    then text ∷ []
    else []
read_statements in_quote characters (c ∷ d ∷ rest) =
    let pair = read_statements true (characters ++ c ∷ d ∷ []) rest in
    let toggled = read_statements (not in_quote) (characters ++ c ∷ []) (d ∷ rest) in
    let next = statement_of (characters ++ c ∷ []) ∷ read_statements false [] (d ∷ rest) in
    let same = read_statements in_quote (characters ++ c ∷ []) (d ∷ rest) in
    if c == b'\'' && in_quote && d == b'\''
    then pair
    else if c == b'\''
    then toggled
    else if c == b';' && not in_quote
    then next
    else same

-- One statement: whether it fails, and the new state.
unfoldable pub run_statement : StorageOps → List TableDef → Bytes → Process → Bool × Process
run_statement ops tables statement s =
    maybe (parse_sql statement) (true, (print_error err_invalid_query s).1)
      (λ cmd. let (success, s') = execute_command cmd ops tables s in (not success, s'))

-- The loop over the statements; the result is `has_error`.
unfoldable pub run_statements :
    StorageOps → List TableDef → List Bytes → Bool → Process → Bool × Process
run_statements ops tables [] has_error s = (has_error, s)
run_statements ops tables (statement ∷ statements) has_error s =
    let (failed, s') = run_statement ops tables statement s in
    run_statements ops tables statements (if failed then true else has_error) s'

unfoldable pub open_failed : Process → ℕ × Process
open_failed s = (1, (print_error err_file_open s).1)

-- From the open file on.
unfoldable pub run_file : Option (List Bytes) → Option Bytes → Bytes → Process → ℕ × Process
run_file names cwd bytes s =
    maybe (load_schemas s.disk (codes ".") 16 names) (open_failed s) (λ tables.
      maybe cwd (open_failed s) (λ data_dir.
        let ops = file_storage_create (record { tables = tables; data_dir = data_dir }) in
        let (has_error, s') = run_statements ops tables (read_statements false [] bytes) false s in
        (if has_error then 1 else 0, s')))

unfoldable pub run_opened : Option (List Bytes) → Option Bytes → Opened → Process → ℕ × Process
run_opened names cwd missing s = open_failed s
run_opened names cwd denied s = open_failed s
run_opened names cwd (opened bytes) s = run_file names cwd bytes s

-- On the arguments behind the program's name; only the first is used. `cwd` is the result of
-- getcwd, if it fits in the buffer.
unfoldable pub main : List FilePath → Option (List Bytes) → Option Bytes → Disk → ℕ × Process
main arguments names cwd disk =
    let s : Process = record { disk = disk; output = []; errors = [] } in
    elim arguments [ [] ↦ open_failed s | path ∷ _ ↦ run_opened names cwd (open_read disk path) s ]
