-- ===== src/Jihyun/Sql/Ast.antt =====
-- include/ast.h, and the results of the parser. The counts of the C structs are the lengths of
-- the lists.
use jungle_week6_coding_sess.Prelude.{Bool, Bytes, List}
use jungle_week6_coding_sess.Jihyun.Status.{SqlStatus}

pub record InsertStatement : Type 0 where
  pub table_name : Bytes
  pub columns : List Bytes
  pub values : List Bytes

pub record SelectStatement : Type 0 where
  pub table_name : Bytes
  pub select_all : Bool
  pub columns : List Bytes

pub data Statement : Type 0 where
  insert_stmt : InsertStatement → Statement
  select_stmt : SelectStatement → Statement

-- `double_free`: `statement_destroy` is called on an array that was freed before, which C leaves
-- undefined.
pub data Parsed {ℓ} (A : Type ℓ) : Type ℓ where
  done : A → Parsed A
  fail : SqlStatus → Parsed A
  double_free : Parsed A

infixl 5 ◌>>=◌ ◌>>◌
abbrev pub ◌>>=◌ {ℓ κ} : {A : Type ℓ} {B : Type κ} → Parsed A → (A → Parsed B) → Parsed B
done a >>= f = f a
fail s >>= f = fail s
double_free >>= f = double_free

abbrev pub ◌>>◌ {ℓ} : {B : Type ℓ} → Parsed (Unit {0}) → Parsed B → Parsed B
m >> k = m >>= λ _. k

-- `if (!test) return status;`
abbrev pub guard : Bool → SqlStatus → Parsed (Unit {0})
guard Bool.true s = done tt
guard Bool.false s = fail s
