-- ===== src/Jihyun/Program.antt =====
-- main.c: the file of statements, one after the other.
use jungle_week6_coding_sess.Prelude.{
  ℕ, Bool, true, false, not, Option, none, some, Bytes, List, [], ◌∷◌, ◌++◌, ◌==◌, if◌then◌else◌,
  length, codes,
}
use jungle_week6_coding_sess.Jihyun.Status.{SqlStatus, ok, file_open_failed}
use jungle_week6_coding_sess.Jihyun.Action.{Outcome, done, fail}
use jungle_week6_coding_sess.Jihyun.Sql.Ast
use jungle_week6_coding_sess.Jihyun.Sql.Ast.{Parsed, Statement, double_free}
use jungle_week6_coding_sess.Jihyun.Sql.Scan.{split_sql_statements}
use jungle_week6_coding_sess.Jihyun.Sql.Parse.{parse_statement}
use jungle_week6_coding_sess.Libc.Disk.{
  Disk, FilePath, missing, denied, opened, open_read, store_file, c_string,
}
use jungle_week6_coding_sess.Jihyun.Cache.{
  Machine, CacheStats, buffer_cache_init, buffer_cache_get_stats,
}
use jungle_week6_coding_sess.Jihyun.Storage.{storage_flush}
use jungle_week6_coding_sess.Jihyun.Executor.{
  ExecutionContext, Session, error_line, execute_statement,
}
unfoldable pub use jungle_week6_coding_sess.Libc.Text.{digits, decimal}

-- How the process ends: with an exit code, or with no defined behaviour after a double free.
pub data Exit : Type 0 where
  exited : ℕ → Session → Exit
  undefined : Session → Exit

-- read_sql_file, and the C string that its buffer holds.
unfoldable pub read_sql_file : Disk → FilePath → Outcome Bytes
read_sql_file disk path = elim (open_read disk path) [
  | missing ↦ fail file_open_failed
  | denied ↦ fail file_open_failed
  | opened bytes ↦ done (c_string bytes)
]

unfoldable pub print_error : SqlStatus → Session → Session
print_error status s = record s { error_stream = s.error_stream ++ error_line status }

-- `print_error(stderr, status); had_error = true;`
unfoldable pub print_failure : SqlStatus → Session → Session
print_failure status s = record (print_error status s) { did_error = true }

-- One round of the loop over the statements. `none` is a double free.
unfoldable pub run_parsed : ExecutionContext → Parsed Statement → Session → Option Session
run_parsed context (Ast.done statement) s = some (execute_statement context statement s).1
run_parsed context (Ast.fail status) s = some (print_failure status s)
run_parsed context double_free s = none

unfoldable pub run_statements : ExecutionContext → List Bytes → Session → Bool × Session
run_statements context [] s = (true, s)
run_statements context (text ∷ statements) s = elim (run_parsed context (parse_statement text) s) [
  | none ↦ (false, s)
  | some s' ↦ run_statements context statements s'
]

unfoldable pub stats_line : CacheStats → Bytes
stats_line stats =
    codes "{\"hit\":"
    ++ (decimal stats.hit
        ++ (codes ",\"miss\":"
            ++ (decimal stats.miss
                ++ (codes ",\"dirtyPages\":"
                    ++ (decimal stats.dirty_pages
                        ++ (codes ",\"flushCount\":" ++ (decimal stats.flushes ++ codes "}\n")))))))

-- The file is opened with "wb", which the model allows where the path can be written.
unfoldable pub write_cache_stats_file : Option FilePath → Machine → Machine
write_cache_stats_file none m = m
write_cache_stats_file (some path) m =
    if length path == 0
    then m
    else if m.disk.can_write path
    then record m { disk = store_file m.disk path (stats_line (buffer_cache_get_stats m.cache)) }
    else m

abbrev pub on_machine : (Machine → Machine) → Session → Session
on_machine f s = record s { machine = f s.machine }

-- execution_context_flush, with the message of a failure.
unfoldable pub flush_context : Session → Session
flush_context s =
    let (result, m) = storage_flush s.machine in
    let flushed = record s { machine = m } in
    elim result [ done _ ↦ flushed | fail e ↦ print_failure e flushed ]

abbrev pub exit_code : Session → ℕ
exit_code s = if s.did_error then 1 else 0

-- From the loop over the statements on. execution_context_destroy flushes once more.
unfoldable pub run_program : Option FilePath → List Bytes → Session → Exit
run_program stats_path statements s =
    let context : ExecutionContext = record { schema_dir = codes "."; data_dir = codes "." } in
    let (defined, ran) = run_statements context statements s in
    let flushed = flush_context ran in
    let written = on_machine (write_cache_stats_file stats_path) flushed in
    let destroyed = on_machine (λ m. (storage_flush m).1) written in
    if not defined then undefined ran else exited (exit_code destroyed) destroyed

unfoldable pub start : Disk → Session
start disk = record {
  machine = record { cache = buffer_cache_init; disk = disk };
  output_stream = [];
  error_stream = [];
  did_error = false;
}

-- The arguments behind the program's name, the value of SQL_PROCESSOR_CACHE_STATS_PATH, and the
-- files.
unfoldable pub main : List FilePath → Option FilePath → Disk → Exit
main (path ∷ []) stats_path disk = elim (read_sql_file disk path) [
  | fail status ↦ exited 1 (print_error status (start disk))
  | done sql_text ↦
      let (status, statements) = split_sql_statements sql_text in
      elim status [
        | ok ↦ run_program stats_path statements (start disk)
        | e ↦ exited 1 (print_error e (start disk))
      ]
]
main _ stats_path disk = exited 1 (print_error file_open_failed (start disk))
