-- ===== src/Dragon/Types.antt =====
-- types.h. The counts of the C structs are the lengths of the lists, and an optional clause is an
-- option in place of its flag and its struct.
use jungle_week6_coding_sess.Prelude.{ℕ, Bool, Bytes, List, Option}
use jungle_week6_coding_sess.Libc.Disk.{Disk}

abbrev pub max_value_len : ℕ
max_value_len = 256

abbrev pub max_rows : ℕ
max_rows = 1024

pub data CommandType : Type 0 where
  cmd_none cmd_insert cmd_select cmd_delete cmd_update : CommandType

pub data CompareOp : Type 0 where
  op_eq op_ne op_gt op_lt op_ge op_le : CompareOp

pub record WhereCondition : Type 0 where
  pub column : Bytes
  pub op : CompareOp
  pub value : Bytes

pub data OrderDirection : Type 0 where
  order_asc order_desc : OrderDirection

pub record OrderByClause : Type 0 where
  pub column : Bytes
  pub direction : OrderDirection

pub record SetClause : Type 0 where
  pub column : Bytes
  pub value : Bytes

pub record ColumnDef : Type 0 where
  pub name : Bytes
  pub type : Bytes

pub record TableDef : Type 0 where
  pub name : Bytes
  pub columns : List ColumnDef

pub record Command : Type 0 where
  pub type : CommandType
  pub table_name : Bytes
  pub insert_columns : List Bytes
  pub values : List Bytes
  pub columns : List Bytes
  pub is_select_all : Bool
  pub where_condition : Option WhereCondition
  pub order_by : Option OrderByClause
  pub limit_count : Option ℕ
  pub set_clauses : List SetClause

pub record ResultSet : Type 0 where
  pub headers : List Bytes
  pub rows : List (List Bytes)

pub data ErrorCode : Type 0 where
  err_none err_invalid_query err_table_not_found err_column_mismatch err_file_open : ErrorCode

-- A status, with the out-parameter where it is ERR_NONE.
pub data Outcome {ℓ} (Out : Type ℓ) : Type ℓ where
  stopped : ErrorCode → Outcome Out
  filled : Out → Outcome Out

-- The operations of a storage on its files: a status and the new files, or what was read.
pub record StorageOps : Type 0 where
  pub insert : Bytes → List Bytes → Disk → ErrorCode × Disk
  pub select_rows : Bytes → List Bytes → Bool → Disk → Outcome ResultSet
  pub read_all_rows : Bytes → Disk → Outcome ResultSet
  pub replace_rows : Bytes → ResultSet → Disk → ErrorCode × Disk
