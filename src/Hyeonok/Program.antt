-- ===== src/Hyeonok/Program.antt =====
-- error.c and main.c.
use jungle_week6_coding_sess.Prelude.{
  ℕ, Bool, true, false, Bytes, List, [], ◌∷◌, ◌++◌, if◌then◌else◌, codes, maybe,
}
use jungle_week6_coding_sess.Libc.Disk.{Disk, FilePath}
use jungle_week6_coding_sess.Hyeonok.Text.{is_empty, read_entire_file}
use jungle_week6_coding_sess.Hyeonok.Split.{split_sql_statements}
use jungle_week6_coding_sess.Hyeonok.Parser.{parse_query}
use jungle_week6_coding_sess.Hyeonok.Executor.{
  ExecuteResult, execute_success, execute_invalid_query, execute_table_not_found,
  execute_column_count_mismatch, execute_file_error, Streams, execute_query,
}

pub data AppError : Type 0 where
  app_error_none app_error_invalid_query app_error_table_not_found : AppError
  app_error_column_count_mismatch app_error_file_open_failed : AppError

unfoldable pub app_error_message : AppError → Bytes
app_error_message app_error_none = []
app_error_message app_error_invalid_query = codes "ERROR: invalid query"
app_error_message app_error_table_not_found = codes "ERROR: table not found"
app_error_message app_error_column_count_mismatch =
    codes "ERROR: column count does not match value count"
app_error_message app_error_file_open_failed = codes "ERROR: file open failed"

unfoldable pub print_app_error : AppError → Streams → Streams
print_app_error error s =
    let message = app_error_message error in
    if is_empty message then s else record s { errors = s.errors ++ (message ++ codes "\n") }

unfoldable pub app_error_from_execute_result : ExecuteResult → AppError
app_error_from_execute_result execute_success = app_error_none
app_error_from_execute_result execute_invalid_query = app_error_invalid_query
app_error_from_execute_result execute_table_not_found = app_error_table_not_found
app_error_from_execute_result execute_column_count_mismatch = app_error_column_count_mismatch
app_error_from_execute_result execute_file_error = app_error_file_open_failed

-- The statement's result: `true` is 0.
unfoldable pub finish : ExecuteResult → Streams → Bool × Streams
finish execute_success s = (true, s)
finish result s = (false, print_app_error (app_error_from_execute_result result) s)

-- Whether the statement succeeds; a parse fails with PARSE_INVALID_QUERY only.
unfoldable pub run_single_statement : Bytes → Streams → Bool × Streams
run_single_statement sql_text s =
    maybe (parse_query sql_text) (false, print_app_error app_error_invalid_query s)
      (λ statement. let (result, s') = execute_query statement s in finish result s')

-- The loop over the statements; the result is `had_failure`.
unfoldable pub run_statements : List Bytes → Bool → Streams → Bool × Streams
run_statements [] had_failure s = (had_failure, s)
run_statements (sql_text ∷ statements) had_failure s =
    let (success, s') = run_single_statement sql_text s in
    run_statements statements (if success then had_failure else true) s'

unfoldable pub process_sql_file : FilePath → Streams → ℕ × Streams
process_sql_file sql_path s =
    maybe (read_entire_file s.disk sql_path) (1, print_app_error app_error_file_open_failed s)
      (λ sql_text.
        let (had_failure, s') = run_statements (split_sql_statements sql_text) false s in
        (if had_failure then 1 else 0, s'))

-- On the arguments behind the program's name.
unfoldable pub main : List FilePath → Disk → ℕ × Streams
main arguments disk =
    let s : Streams = record { disk = disk; output = []; errors = [] } in
    elim arguments [
      | [] ↦ (1, print_app_error app_error_invalid_query s)
      | sql_path ∷ [] ↦ process_sql_file sql_path s
      | _ ∷ _ ∷ _ ↦ (1, print_app_error app_error_invalid_query s)
    ]
