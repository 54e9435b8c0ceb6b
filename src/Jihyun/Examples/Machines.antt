-- ===== src/Jihyun/Examples/Machines.antt =====
-- A program that starts without files, and one that starts with a table of one empty page.
use jungle_week6_coding_sess.Prelude.{
  ℕ, take, ◌≡◌, refl, none, true, [], ◌∷◌, codes, arith, length, ◌<◌,
}
use jungle_week6_coding_sess.Jihyun.Action.{done}
use jungle_week6_coding_sess.Libc.Disk.{Disk, FilePath}
use jungle_week6_coding_sess.Jihyun.Schema.{TableSchema, build_path}
use jungle_week6_coding_sess.Jihyun.Cache.{Machine, max_path_length, buffer_cache_create_page}
use jungle_week6_coding_sess.Jihyun.Cache.Steady.{Permits, Sound}
use jungle_week6_coding_sess.Jihyun.Cache.Start.{started, buffer_cache_init-Sound}
use jungle_week6_coding_sess.Jihyun.Cache.Create.{Created, create_page-Created}
use jungle_week6_coding_sess.Jihyun.Storage.{RowData, build_table_path}
use jungle_week6_coding_sess.Jihyun.Storage.Table.{Table, Table-missing}

abbrev pub no_files : Disk
no_files = record { file = λ p. none; can_read = λ p. true; can_write = λ p. true }

pub no_files-Permits : Permits no_files
no_files-Permits = record { reads = λ p. refl; writes = λ p. refl }

abbrev pub no_files_machine : Machine
no_files_machine = started no_files

pub no_files-Sound : Sound no_files_machine
no_files-Sound = buffer_cache_init-Sound no_files no_files-Permits

abbrev pub users : TableSchema
users = record {
  table_name = codes "users";
  columns =
      record { name = codes "id"; type = codes "int" }
      ∷ record { name = codes "name"; type = codes "string" }
      ∷ [];
}

abbrev pub users_path : FilePath
users_path = build_table_path (codes ".") (codes "users")

pub users_path-fits : length users_path < max_path_length
unfolding build_table_path build_path take
users_path-fits = omega arith

abbrev pub kim : RowData
kim = codes "1" ∷ codes "kim" ∷ []

pub no_users : Table no_files_machine users_path []
no_users = Table-missing no_files users_path refl

-- The table's first page, created.
abbrev pub CreatedUsers : Type 0
CreatedUsers =
    (m : Machine) × (i : ℕ) × (buffer_cache_create_page users_path 0 no_files_machine ≡ (done i, m))
    × Created no_files_machine m i users_path 0

pub created_users : CreatedUsers
created_users =
    create_page-Created no_files_machine users_path 0 no_files-Sound (omega arith) users_path-fits
      no_users.within
