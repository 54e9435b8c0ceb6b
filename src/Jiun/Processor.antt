-- ===== src/Jiun/Processor.antt =====
-- application/processor.c, shared/error.c and interfaces/cli.c.
pub mod ExitCode
use jungle_week6_coding_sess.Prelude.{
  ℕ, Bool, true, false, Option, none, some, Bytes, List, [], ◌∷◌, ◌++◌, if◌then◌else◌, maybe, codes,
}
use jungle_week6_coding_sess.Libc.Disk.{Disk, FilePath}
use jungle_week6_coding_sess.Jiun.Types.{
  SchemaRegistry, InsertPlan, SelectPlan, Message, invalid_query, file_open_failed, message_text,
  Result, ok, err,
}
use jungle_week6_coding_sess.Jiun.Schema.{load_required_schemas, read_entire_file}
use jungle_week6_coding_sess.Jiun.Parser.{parse_insert, parse_select}
use jungle_week6_coding_sess.Jiun.Split.{is_insert_stmt, is_select_stmt, split_statements}
use jungle_week6_coding_sess.Jiun.Storage.{execute_insert, execute_select_with_options}

-- The files and the two streams.
pub record Session : Type 0 where
  pub disk : Disk
  pub output : Bytes
  pub errors : Bytes

pub data StatementKind : Type 0 where
  unknown insert select : StatementKind

-- `error_message` is `none` where the pointer is NULL.
pub record StatementResult : Type 0 where
  pub success : Bool
  pub kind : StatementKind
  pub error_message : Option Message
  pub row_count : ℕ

abbrev pub failed : StatementKind → Message → StatementResult
failed kind message = record {
  success = false;
  kind = kind;
  error_message = some message;
  row_count = 0;
}

abbrev pub succeeded : StatementKind → ℕ → StatementResult
succeeded kind count = record {
  success = true;
  kind = kind;
  error_message = none;
  row_count = count;
}

unfoldable pub run_insert : Result InsertPlan → Session → StatementResult × Session
run_insert (err message) s = (failed insert message, s)
run_insert (ok plan) s =
    let (inserted, disk) = execute_insert plan s.disk in
    if inserted
    then (succeeded insert 1, record s { disk = disk })
    else (failed insert file_open_failed, record s { disk = disk })

unfoldable pub run_select : Result SelectPlan → Bool → Session → StatementResult × Session
run_select (err message) interactive s = (failed select message, s)
run_select (ok plan) interactive s =
    let (text, count) = execute_select_with_options plan interactive s.disk in
    (succeeded select count, record s { output = s.output ++ text })

-- The code's return value is the `success` of the result.
unfoldable pub execute_sql_statement : Bytes → Bool → Session → StatementResult × Session
execute_sql_statement stmt interactive s = elim (load_required_schemas s.disk) [
  | none ↦ (failed unknown file_open_failed, s)
  | some reg ↦
      if is_insert_stmt stmt
      then run_insert (parse_insert stmt reg) s
      else if is_select_stmt stmt
      then run_select (parse_select stmt reg) interactive s
      else (failed unknown invalid_query, s)
]

unfoldable pub print_error : Bytes → Session → Session
print_error msg s = record s { errors = s.errors ++ (codes "ERROR: " ++ (msg ++ codes "\n")) }

-- `result.error_message ? result.error_message : "invalid query"`
abbrev pub message_of : StatementResult → Bytes
message_of result = maybe result.error_message (codes "invalid query") message_text

-- The loop over the statements; the result is `had_error`.
unfoldable pub run_all : List Bytes → Bool → Bool → Session → Bool × Session
run_all [] interactive had_error s = (had_error, s)
run_all (stmt ∷ stmts) interactive had_error s =
    let (result, s') = execute_sql_statement stmt interactive s in
    run_all stmts interactive (if result.success then had_error else true)
      (if result.success then s' else print_error (message_of result) s')

unfoldable pub execute_sql_text : Bytes → Session → ℕ × Session
execute_sql_text sql_text s =
    let (had_error, s') = run_all (split_statements sql_text) false false s in
    (if had_error then 1 else 0, s')

unfoldable pub process_sql_file : FilePath → Session → ℕ × Session
process_sql_file sql_file_path s =
    maybe (read_entire_file s.disk sql_file_path) (1, print_error (codes "file open failed") s)
      (λ sql_text. execute_sql_text sql_text s)
