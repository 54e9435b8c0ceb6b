-- ===== src/Jiun/Interactive.antt =====
-- interfaces/interactive.c, without readline, and interfaces/cli.c. The input is what stdin gives.
use jungle_week6_coding_sess.Prelude.{
  ℕ, Bool, true, false, not, ◌||◌, Option, Bytes, List, [], ◌∷◌, ◌++◌, ◌==◌, if◌then◌else◌, length,
  drop, maybe, codes, bytes_eq,
}
use jungle_week6_coding_sess.Libc.Text.{char_at, starts_with, str_less, decimal, fgets_lines}
use jungle_week6_coding_sess.Libc.Disk.{Disk, FilePath, c_string}
use jungle_week6_coding_sess.Jiun.Types.{Column}
use jungle_week6_coding_sess.Jiun.Text.{is_empty, skip_ws, rtrim_inplace, trim_copy}
use jungle_week6_coding_sess.Jiun.Schema.{load_named_schema, list_schema_tables}
use jungle_week6_coding_sess.Jiun.Split.{split_statements}
use jungle_week6_coding_sess.Jiun.Storage.{escape_sequence, color_reset, color_bold}
use jungle_week6_coding_sess.Jiun.Processor.{
  Session, StatementResult, unknown, insert, select, execute_sql_statement, message_of, print_error,
  process_sql_file,
}

abbrev pub color_red : Bytes
color_red = escape_sequence (codes "[31m")

abbrev pub color_green : Bytes
color_green = escape_sequence (codes "[32m")

abbrev pub color_cyan : Bytes
color_cyan = escape_sequence (codes "[36m")

-- A text in a color.
abbrev pub colored : Bytes → Bytes → Bytes
colored color text = color ++ (text ++ color_reset)

abbrev pub line : Bytes → Bytes
line text = text ++ codes "\n"

abbrev pub put : Bytes → Session → Session
put text s = record s { output = s.output ++ text }

abbrev pub put_error : Bytes → Session → Session
put_error text s = record s {
  errors = s.errors ++ line (colored color_red (codes "ERROR: " ++ text));
}

abbrev pub banner : Bytes
banner =
    codes
      "                    ___                                                                                        \n"
    ++ (codes
          "                   /\\_ \\                                                                                       \n"
        ++ (codes
              "  ____     __      \\//\\ \\                _____    _ __    ___     ___      __     ____    ____    ___    _ __  \n"
            ++ (codes
                  " /',__\\  /'__`\\      \\ \\ \\              /\\ '__`\\\\/\\`'__\\ / __`\\  /'___\\  /'__`\\  /',__\\  /',__\\  / __`\\\\/\\`'__\\\\\n"
                ++ (codes
                      "/\\__, `\\\\/\\ \\L\\ \\      \\_\\ \\_            \\ \\ \\L\\ \\\\ \\ \\/ /\\ \\L\\ \\/\\ \\__/ /\\  __/ /\\__, `\\\\/\\__, `\\\\/\\ \\L\\ \\\\ \\ \\/ \n"
                    ++ (codes
                          "\\/\\____/\\ \\___, \\     /\\____\\            \\ \\ ,__/ \\ \\_\\\\ \\____/\\ \\____\\\\ \\____\\\\/\\____/\\/\\____/\\ \\____/ \\ \\_\\ \n"
                        ++ (codes
                              " \\/___/  \\/___/\\ \\    \\/____/             \\ \\ \\/   \\/_/ \\/___/  \\/____/ \\/____/ \\/___/  \\/___/  \\/___/   \\/_/ \n"
                            ++ (codes
                                  "              \\ \\_\\                        \\ \\_\\                                                               \n"
                                ++ (codes
                                    "               \\/_/                         \\/_/                                                               \n"))))))))

unfoldable pub print_banner : Session → Session
print_banner s =
    put
      (colored color_cyan banner
        ++ (line (colored color_bold (codes "SQL Processor v1.0"))
            ++ (line (line (colored color_cyan (codes "Type .help for commands"))))))
      s

unfoldable pub print_help : Session → Session
print_help s =
    put
      (line (colored color_bold (codes "Available commands"))
        ++ (codes "  .help              Show this help message\n"
            ++ (codes "  .quit              Exit interactive mode\n"
                ++ (codes "  .exit              Exit interactive mode\n"
                    ++ (codes "  .tables            List available tables\n"
                        ++ (codes "  .schema <table>    Show schema for a table\n"
                            ++ (codes "\n"
                                ++ ((line (colored color_bold (codes "Supported SQL")))
                                    ++ (codes "  INSERT INTO ... VALUES (...)\n"
                                        ++ (codes "  SELECT ... FROM ...\n"))))))))))
      s

-- `qsort` by `strcmp`: equal texts are the same bytes, so every sort gives this list.
unfoldable pub insert_sorted : Bytes → List Bytes → List Bytes
insert_sorted text [] = text ∷ []
insert_sorted text (first ∷ sorted) =
    let later = insert_sorted text sorted in
    if str_less first text then first ∷ later else text ∷ (first ∷ sorted)

unfoldable pub sort_texts : List Bytes → List Bytes
sort_texts [] = []
sort_texts (text ∷ texts) = insert_sorted text (sort_texts texts)

unfoldable pub table_lines : List Bytes → Bytes
table_lines [] = []
table_lines (table ∷ tables) = codes "  - " ++ (line table ++ table_lines tables)

-- The names in the directory are an argument, as for list_schema_tables.
unfoldable pub print_tables : Option (List Bytes) → Session → Session
print_tables names s =
    maybe (list_schema_tables names) (put_error (codes "file open failed") s) (λ tables.
      put
        (line (colored color_bold (codes "Available tables:"))
          ++ (table_lines (sort_texts tables)
              ++ (if length tables == 0 then codes "  (none)\n" else [])))
        s)

unfoldable pub column_lines : List Column → Bytes
column_lines [] = []
column_lines (column ∷ columns) =
    codes "  - " ++ (column.name ++ (codes ": " ++ (line column.type ++ column_lines columns)))

unfoldable pub print_schema_for_table : Bytes → Session → Session
print_schema_for_table table_name s =
    maybe (load_named_schema s.disk table_name) (put_error (codes "table not found") s) (λ schema.
      put
        (line (colored color_bold (codes "Schema for " ++ table_name))
          ++ column_lines schema.columns)
        s)

-- Whether the loop goes on: the code returns 1, or -1 to end it.
unfoldable pub handle_meta_command : Option (List Bytes) → Bytes → Session → Bool × Session
handle_meta_command names text s =
    let cmd = skip_ws text in
    let arg = skip_ws (drop 7 cmd) in
    if bytes_eq cmd (codes ".quit") || bytes_eq cmd (codes ".exit")
    then (false, put (line (colored color_green (codes "Bye!"))) s)
    else if bytes_eq cmd (codes ".help")
    then (true, print_help s)
    else if bytes_eq cmd (codes ".tables")
    then (true, print_tables names s)
    else if starts_with cmd (codes ".schema")
    then (
      true,
      if is_empty arg
          then put_error (codes "invalid query") s
          else print_schema_for_table (trim_copy arg 256) s,
    )
    else (true, put_error (codes "invalid query") s)

-- `✓` is the bytes 226, 156 and 147.
unfoldable pub print_statement_success : StatementResult → Session → Session
print_statement_success result s = elim result.kind [
  | insert ↦ put (line (colored color_green (226 ∷ 156 ∷ 147 ∷ codes " 1 row inserted."))) s
  | select ↦
      let plural = if result.row_count == 1 then [] else codes "s" in
      put
        (line (
          colored color_green
            (codes "(" ++ (decimal result.row_count ++ (codes " row" ++ (plural ++ codes ")"))))))
        s
  | unknown ↦ s
]

-- One statement, with its message.
unfoldable pub run_sql_statement : Bytes → Session → Bool × Session
run_sql_statement stmt s =
    let (result, s') = execute_sql_statement stmt true s in
    if result.success
    then (true, print_statement_success result s')
    else (false, put_error (message_of result) s')

unfoldable pub run_sql_statements : List Bytes → Bool → Session → Bool × Session
run_sql_statements [] had_error s = (had_error, s)
run_sql_statements (stmt ∷ stmts) had_error s =
    let (success, s') = run_sql_statement stmt s in
    run_sql_statements stmts (if success then had_error else true) s'

-- A line with no statement is run as one.
unfoldable pub run_sql_line : Bytes → Session → Bool × Session
run_sql_line text s = elim (split_statements text) [
  | [] ↦ let (success, s') = run_sql_statement text s in (not success, s')
  | stmt ∷ stmts ↦ run_sql_statements (stmt ∷ stmts) false s
]

abbrev pub prompt : Bytes
prompt = colored color_green (codes "sql> ")

-- The loop: each round reads a line, up to 8191 bytes. At the end of the input it says good bye.
unfoldable pub interact : Option (List Bytes) → List Bytes → Session → Session
interact names [] s = put (prompt ++ line (colored color_green (codes "Bye!"))) s
interact names (chunk ∷ chunks) s =
    let text = rtrim_inplace (c_string chunk) in
    let trimmed = skip_ws text in
    let asked = put prompt s in
    let (go_on, answered) = handle_meta_command names text asked in
    let skipped = interact names chunks asked in
    let commanded = interact names chunks answered in
    let ran = interact names chunks (run_sql_line text asked).1 in
    if is_empty trimmed
    then skipped
    else if char_at trimmed == b'.'
    then (if not go_on then answered else commanded)
    else ran

unfoldable pub run_interactive_mode : Option (List Bytes) → Bytes → Session → ℕ × Session
run_interactive_mode names input s = (0, interact names (fgets_lines 8192 input) (print_banner s))

-- run_cli of interfaces/cli.c, on the arguments behind the program's name.
unfoldable pub run_cli : List FilePath → Option (List Bytes) → Bytes → Session → ℕ × Session
run_cli [] names input s = run_interactive_mode names input s
run_cli (path ∷ []) names input s = process_sql_file path s
run_cli (_ ∷ _ ∷ _) names input s = (1, print_error (codes "file open failed") s)

-- main: the program on its files.
unfoldable pub main : List FilePath → Option (List Bytes) → Bytes → Disk → ℕ × Session
main arguments names input disk =
    run_cli arguments names input (record { disk = disk; output = []; errors = [] })
