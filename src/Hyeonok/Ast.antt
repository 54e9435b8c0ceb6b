-- ===== src/Hyeonok/Ast.antt =====
-- ast.h. A pointer that is NULL in a statement of the other type is the empty text or list, and
-- the counts are the lengths of the lists.
use jungle_week6_coding_sess.Prelude.{ℕ, Bool, false, Bytes, List, []}

pub data SqlStatementType : Type 0 where
  unclassified insert_type select_type : SqlStatementType

pub data SqlValueType : Type 0 where
  string_value int_value : SqlValueType

-- `word` is the `int_value`, as a word of 32 bits.
pub record SqlValue : Type 0 where
  pub type : SqlValueType
  pub text : Bytes
  pub word : ℕ

pub record InsertStatement : Type 0 where
  pub table_name : Bytes
  pub columns : List Bytes
  pub values : List SqlValue

pub record SelectStatement : Type 0 where
  pub select_all : Bool
  pub table_name : Bytes
  pub columns : List Bytes

pub record SqlStatement : Type 0 where
  pub type : SqlStatementType
  pub raw_sql : Bytes
  pub insert : InsertStatement
  pub select : SelectStatement

-- initialize_statement of parser.c, with the copy of the text.
abbrev pub initialize_statement : Bytes → SqlStatement
initialize_statement sql_text = record {
  type = unclassified;
  raw_sql = sql_text;
  insert = record { table_name = []; columns = []; values = [] };
  select = record { select_all = false; table_name = []; columns = [] };
}
