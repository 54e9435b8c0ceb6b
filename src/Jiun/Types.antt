-- ===== src/Jiun/Types.antt =====
-- domain/types.h, the messages of the errors, and the results that carry them.
use jungle_week6_coding_sess.Prelude.{ℕ, Bool, true, false, Bytes, List, Option, none, some, codes}

abbrev pub max_tables : ℕ
max_tables = 16

abbrev pub max_columns : ℕ
max_columns = 64

abbrev pub max_list_items : ℕ
max_list_items = 64

pub record Column : Type 0 where
  pub name : Bytes
  pub type : Bytes

pub record TableSchema : Type 0 where
  pub name : Bytes
  pub columns : List Column

-- The tables; `table_count` is their number.
abbrev pub SchemaRegistry : Type 0
SchemaRegistry = List TableSchema

pub record InsertPlan : Type 0 where
  pub schema : TableSchema
  pub values : List Bytes

-- The selected indexes; `selected_count` is their number.
pub record SelectPlan : Type 0 where
  pub schema : TableSchema
  pub selected_idx : List ℕ

-- The texts that `err_msg` is set to.
pub data Message : Type 0 where
  invalid_query table_not_found count_mismatch file_open_failed : Message

abbrev pub message_text : Message → Bytes
message_text invalid_query = codes "invalid query"
message_text table_not_found = codes "table not found"
message_text count_mismatch = codes "column count does not match value count"
message_text file_open_failed = codes "file open failed"

-- A function that returns 1 with its out-parameters, or 0 with `*err_msg` set.
pub data Result {ℓ} (Out : Type ℓ) : Type ℓ where
  err : Message → Result Out
  ok : Out → Result Out

infixl 5 ◌>>=◌ ◌>>◌
-- The rest of the function runs on what was found, unless the function has returned.
abbrev pub ◌>>=◌ {ℓ κ} : {In : Type ℓ} {Out : Type κ} → Result In → (In → Result Out) → Result Out
err message >>= rest = err message
ok found >>= rest = rest found

abbrev pub ◌>>◌ {κ} : {Out : Type κ} → Result (Unit {0}) → Result Out → Result Out
err message >> rest = err message
ok _ >> rest = rest

-- `if (!test) { *err_msg = ...; return 0; }`
abbrev pub guard : Bool → Message → Result (Unit {0})
guard false message = err message
guard true message = ok tt

-- `if (!found) { *err_msg = ...; return 0; }`
abbrev pub want {ℓ} : {Out : Type ℓ} → Option Out → Message → Result Out
want none message = err message
want (some found) message = ok found
