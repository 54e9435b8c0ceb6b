-- ===== src/Jihyun/Status.antt =====
-- status.c and include/status.h: the status codes.
use jungle_week6_coding_sess.Prelude.{Bytes, [], codes}

pub data SqlStatus : Type 0 where
  ok invalid_query table_not_found column_value_count_mismatch file_open_failed : SqlStatus
  internal_error : SqlStatus

unfoldable pub sql_status_message : SqlStatus → Bytes
sql_status_message ok = []
sql_status_message invalid_query = codes "invalid query"
sql_status_message table_not_found = codes "table not found"
sql_status_message column_value_count_mismatch = codes "column count does not match value count"
sql_status_message file_open_failed = codes "file open failed"
sql_status_message internal_error = codes "invalid query"
