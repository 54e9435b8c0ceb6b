-- ===== src/Jihyun/Examples/Cache.antt =====
-- The cache at the start of the program, and with the first page of a table.
use jungle_week6_coding_sess.Prelude.{ℕ, ◌≡◌, arith, false, some, ◌∙◌, ap}
use jungle_week6_coding_sess.Jihyun.Action.{done}
use jungle_week6_coding_sess.Jihyun.Page.{DataPage, page_init}
use jungle_week6_coding_sess.Jihyun.Page.Image.{IsSized}
use jungle_week6_coding_sess.Libc.Disk.{FilePath}
use jungle_week6_coding_sess.Jihyun.Cache.{
  Machine, frame_at, flush_frame, choose_victim, buffer_cache_create_page, buffer_cache_flush_file,
  buffer_cache_flush_all,
}
use jungle_week6_coding_sess.Jihyun.Cache.Stored.{stored_page}
use jungle_week6_coding_sess.Jihyun.Cache.View.{Matches, view, view-Matches}
use jungle_week6_coding_sess.Jihyun.Cache.Steady.{Sound, Steady}
use jungle_week6_coding_sess.Jihyun.Cache.Start.{started, buffer_cache_init-Sound}
use jungle_week6_coding_sess.Jihyun.Cache.Flush.{Flushed, flush_frame-Flushed}
use jungle_week6_coding_sess.Jihyun.Cache.FlushAll.{flush_file-FlushedFrom, flush_all-stored}
use jungle_week6_coding_sess.Jihyun.Cache.Victim.{Chosen, choose_victim-Chosen}
use jungle_week6_coding_sess.Jihyun.Cache.Load.{Loads, load_page-Loaded}
use jungle_week6_coding_sess.Jihyun.Cache.Create.{Created, create_page-Created}
use jungle_week6_coding_sess.Jihyun.Cache.Edit.{Edited, edited, mark_dirty-Edited}
use jungle_week6_coding_sess.Jihyun.Examples.Machines.{
  no_files, no_files-Permits, no_files_machine, no_files-Sound, users_path, users_path-fits,
  no_users, created_users,
}

buffer_cache_init-Sound_example : Sound (started no_files)
buffer_cache_init-Sound_example = buffer_cache_init-Sound no_files no_files-Permits

create_page-Created_example :
    (m : Machine) × (i : ℕ) × (buffer_cache_create_page users_path 0 no_files_machine ≡ (done i, m))
    × Created no_files_machine m i users_path 0
create_page-Created_example =
    create_page-Created no_files_machine users_path 0 no_files-Sound (omega arith) users_path-fits
      no_users.within

-- The machine after that.
abbrev m : Machine
m = created_users.0

abbrev first : ℕ
first = created_users.1

m-Sound : Sound m
m-Sound = created_users.3.sound

seen : view m users_path 0 ≡ some (page_init 0)
seen =
    view-Matches m users_path 0 m-Sound.coherent first created_users.3.own
    ∙ ap some created_users.3.own_page

load_page-Loaded_example : Loads m users_path 0 (page_init 0)
load_page-Loaded_example =
    load_page-Loaded m users_path 0 (page_init 0) m-Sound (omega arith) users_path-fits seen

abbrev linked : DataPage
linked = record (frame_at m.cache first).page {
  header = record (frame_at m.cache first).page.header { next_page_id = 1 };
}

linked-IsSized : IsSized linked
linked-IsSized =
    let sized = m-Sound.coherent.sized first created_users.3.own.used in
    record {
      page_id = sized.page_id;
      next_page_id = omega arith;
      row_count = sized.row_count;
      used_bytes = sized.used_bytes;
      payload = sized.payload;
    }

mark_dirty-Edited_example :
    Edited m
      (edited m m-Sound users_path 0 first created_users.3.own linked linked-IsSized)
      first
      users_path
      0
      linked
mark_dirty-Edited_example =
    mark_dirty-Edited m m-Sound users_path 0 first created_users.3.own linked linked-IsSized

flush_frame-Flushed_example :
    (m' : Machine) × (flush_frame first m ≡ (done tt, m')) × Flushed m m' first
flush_frame-Flushed_example = flush_frame-Flushed m first m-Sound

choose_victim-Chosen_example :
    (m' : Machine) × (v : ℕ) × (choose_victim m ≡ (done v, m')) × Chosen m m' v
choose_victim-Chosen_example = choose_victim-Chosen m m-Sound

flush_file-FlushedFrom_example :
    (m' : Machine) × (buffer_cache_flush_file users_path m ≡ (done tt, m'))
    × Steady m m'
    × ((j : ℕ) (k : ℕ)
        → Matches (frame_at m'.cache j) users_path k
        → (frame_at m'.cache j).dirty ≡ false)
flush_file-FlushedFrom_example = flush_file-FlushedFrom users_path m m-Sound

flush_all-stored_example :
    (m' : Machine) × (buffer_cache_flush_all m ≡ (done tt, m'))
    × Steady m m'
    × ((path : FilePath) (k : ℕ) (page : DataPage)
        → view m path k ≡ some page
        → stored_page m'.disk path k ≡ some page)
flush_all-stored_example = flush_all-stored m m-Sound
