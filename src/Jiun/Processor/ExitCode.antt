-- ===== src/Jiun/Processor/ExitCode.antt =====
-- The exit code of a run over a file, and what is printed to stderr.
use jungle_week6_coding_sess.Prelude.{
  ◌⊎◌, ◌<◌, ◌≡◌, refl, ap, ◌∙◌, Bool, true, false, Bytes, List, [], ◌∷◌, ◌++◌, length,
  length-append, arith, inl, inr, Bool-cases, Option-cases, codes,
}
use jungle_week6_coding_sess.Jiun.Types.{InsertPlan, SelectPlan, Result, ok, err}
use jungle_week6_coding_sess.Jiun.Schema.{load_required_schemas}
use jungle_week6_coding_sess.Jiun.Parser.{parse_insert, parse_select}
use jungle_week6_coding_sess.Jiun.Split.{is_insert_stmt, is_select_stmt, split_statements}
use jungle_week6_coding_sess.Jiun.Storage.{execute_insert}
use jungle_week6_coding_sess.Jiun.Processor.{
  Session, run_insert, run_select, execute_sql_statement, print_error, message_of, run_all,
  execute_sql_text,
}

run_insert-errors :
    (plan : Result InsertPlan) (s : Session) → ((run_insert plan s).1).errors ≡ s.errors
unfolding run_insert
run_insert-errors (err message) s = refl
run_insert-errors (ok plan) s = elim (Bool-cases (execute_insert plan s.disk).0) [
  | inl e ↦ rw e refl
  | inr e ↦ rw e refl
]

run_select-errors :
    (plan : Result SelectPlan) (interactive : Bool) (s : Session)
    → ((run_select plan interactive s).1).errors ≡ s.errors
unfolding run_select
run_select-errors (err message) interactive s = refl
run_select-errors (ok plan) interactive s = refl

-- A statement prints nothing to stderr itself.
execute_sql_statement-errors :
    (stmt : Bytes) (interactive : Bool) (s : Session)
    → ((execute_sql_statement stmt interactive s).1).errors ≡ s.errors
unfolding execute_sql_statement
execute_sql_statement-errors stmt interactive s =
    elim (Option-cases (load_required_schemas s.disk)) [
      | inl e ↦ rw (execute_sql_statement, e) refl
      | inr (reg, e) ↦ elim (Bool-cases (is_insert_stmt stmt)) [
        | inl i ↦ rw (execute_sql_statement, e, i) (run_insert-errors (parse_insert stmt reg) s)
        | inr i ↦ elim (Bool-cases (is_select_stmt stmt)) [
          | inl j ↦
              rw (execute_sql_statement, e, i, j)
                (run_select-errors (parse_select stmt reg) interactive s)
          | inr j ↦ rw (execute_sql_statement, e, i, j) refl
        ]
      ]
    ]

-- No message, or one at least and an error.
abbrev pub Agrees : Bool → Bool → Bytes → Bytes → Type 0
Agrees before after errors errors' =
    ((after ≡ before) × (errors' ≡ errors)) ⊎ ((after ≡ true) × (length errors < length errors'))

length-print_error :
    (msg : Bytes) (s : Session) → length s.errors < length (print_error msg s).errors
unfolding print_error
length-print_error msg s =
    omega (arith, length-append s.errors (codes "ERROR: " ++ (msg ++ codes "\n")))

run_all-Agrees :
    (stmts : List Bytes) (interactive had_error : Bool) (s : Session)
    → Agrees had_error
        (run_all stmts interactive had_error s).0
        s.errors
        (run_all stmts interactive had_error s).1.errors
unfolding run_all
run_all-Agrees [] interactive had_error s = inl (refl, refl)
run_all-Agrees (stmt ∷ stmts) interactive had_error s =
    let (result, s') = execute_sql_statement stmt interactive s in
    let same = execute_sql_statement-errors stmt interactive s in
    elim (Bool-cases result.success) [
      | inl e ↦ elim (run_all-Agrees stmts interactive had_error s') [
        | inl (code, errors) ↦ rw (run_all, e) (inl (code, errors ∙ same))
        | inr (code, errors) ↦ rw (run_all, e) (inr (code, omega (arith, ap length same, errors)))
      ]
      | inr e ↦
          let printed = length-print_error (message_of result) s' in
          elim (run_all-Agrees stmts interactive true (print_error (message_of result) s')) [
            | inl (code, errors) ↦
                rw (run_all, e)
                  (inr (code, omega (arith, ap length errors, ap length same, printed)))
            | inr (code, errors) ↦
                rw (run_all, e) (inr (code, omega (arith, ap length same, printed, errors)))
          ]
    ]

-- A run over a text of statements returns 0 and prints nothing to stderr, or it returns 1 and has
-- printed a message there.
pub execute_sql_text-exit_code :
    (sql_text : Bytes) (s : Session)
    → (((execute_sql_text sql_text s).0 ≡ 0) × ((execute_sql_text sql_text s).1.errors ≡ s.errors))
      ⊎ (((execute_sql_text sql_text s).0 ≡ 1)
          × (length s.errors < length (execute_sql_text sql_text s).1.errors))
unfolding execute_sql_text
execute_sql_text-exit_code sql_text s =
    elim (run_all-Agrees (split_statements sql_text) false false s) [
      | inl (e, errors) ↦ inl (rw e refl, errors)
      | inr (e, errors) ↦ inr (rw e refl, errors)
    ]
