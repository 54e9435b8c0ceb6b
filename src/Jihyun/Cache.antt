-- ===== src/Jihyun/Cache.antt =====
-- buffer_cache.c: four frames with least-recently-used replacement and write-back. A pointer to
-- a frame, or to its page, is the index of the frame.
pub mod Frames
pub mod Start
pub mod Stored
pub mod View
pub mod Steady
pub mod Flush
pub mod Replace
pub mod Victim
pub mod Load
pub mod Create
pub mod Edit
pub mod FlushAll
use jungle_week6_coding_sess.Prelude.{
  ℕ, zero, suc, ◌+◌, ◌-◌, ◌*◌, ◌%◌, Bool, true, false, not, ◌&&◌, ◌||◌, Option, none, some, Bytes,
  List, [], ◌∷◌, ◌++◌, ltb, ◌==◌, if◌then◌else◌, maybe, length, take, drop, replicate, get_or,
  bytes_eq,
}
use jungle_week6_coding_sess.Prelude.Words.{u32_mod, u64_mod}
use jungle_week6_coding_sess.Jihyun.Status.{file_open_failed}
use jungle_week6_coding_sess.Jihyun.Action.{
  Action, done, fail, ◌>>=◌, ◌>>◌, pure, modify_state, continue,
}
use jungle_week6_coding_sess.Jihyun.Page.{
  DataPage, page_size, page_init, zero_page, page_bytes, page_of_bytes,
}
use jungle_week6_coding_sess.Libc.Disk.{
  Disk, FilePath, Opened, missing, denied, opened, open_read, open_update, write_at, read_at,
}

abbrev pub buffer_cache_capacity : ℕ
buffer_cache_capacity = 4

abbrev pub max_path_length : ℕ
max_path_length = 512

pub record BufferFrame : Type 0 where
  pub in_use : Bool
  pub dirty : Bool
  pub last_used_tick : ℕ
  pub file_path : FilePath
  pub page_id : ℕ
  pub page : DataPage

pub record BufferCache : Type 0 where
  pub frames : List BufferFrame
  pub tick : ℕ
  pub hit_count : ℕ
  pub miss_count : ℕ
  pub flush_count : ℕ

-- The cache and the files behind it.
pub record Machine : Type 0 where
  pub cache : BufferCache
  pub disk : Disk

unfoldable pub zero_frame : BufferFrame
zero_frame = record {
  in_use = false;
  dirty = false;
  last_used_tick = 0;
  file_path = [];
  page_id = 0;
  page = zero_page;
}

unfoldable pub buffer_cache_init : BufferCache
buffer_cache_init = record {
  frames = replicate buffer_cache_capacity zero_frame;
  tick = 0;
  hit_count = 0;
  miss_count = 0;
  flush_count = 0;
}

unfoldable pub modify_at : ℕ → (BufferFrame → BufferFrame) → List BufferFrame → List BufferFrame
modify_at index f [] = []
modify_at zero f (frame ∷ frames) = f frame ∷ frames
modify_at (suc index) f (frame ∷ frames) = frame ∷ modify_at index f frames

-- Writes through a pointer to the frame at `index`.
unfoldable pub modify_frame : ℕ → (BufferFrame → BufferFrame) → BufferCache → BufferCache
modify_frame index f cache = record cache { frames = modify_at index f cache.frames }

unfoldable pub frame_at : BufferCache → ℕ → BufferFrame
frame_at cache index = get_or cache.frames index zero_frame

abbrev pub on_cache : (BufferCache → BufferCache) → Machine → Machine
on_cache f m = record m { cache = f m.cache }

unfoldable pub frame_matches : BufferFrame → FilePath → ℕ → Bool
frame_matches frame file_path page_id =
    frame.in_use && frame.page_id == page_id && bytes_eq frame.file_path file_path

-- `(long)(frame->page_id * PAGE_SIZE)`: the product is of type uint32_t.
unfoldable pub page_offset : ℕ → ℕ
page_offset page_id = (page_id * page_size) % u32_mod

-- The file is open for update on `disk`: the write, and the frame is clean.
unfoldable pub write_frame : ℕ → BufferFrame → Disk → Machine → Machine
write_frame index frame disk m =
    let cache = modify_frame index (λ f. record f { dirty = false }) m.cache in
    record {
      cache = record cache { flush_count = (cache.flush_count + 1) % u64_mod };
      disk = write_at disk frame.file_path (page_offset frame.page_id) (page_bytes frame.page);
    }

unfoldable pub flush_opened : ℕ → BufferFrame → Option Disk → Action Machine (Unit {0})
flush_opened index frame none m = (fail file_open_failed, m)
flush_opened index frame (some disk) m = (done tt, write_frame index frame disk m)

unfoldable pub flush_frame : ℕ → Action Machine (Unit {0})
flush_frame index m =
    let frame = frame_at m.cache index in
    if not frame.in_use || not frame.dirty
    then (done tt, m)
    else flush_opened index frame (open_update m.disk frame.file_path) m

-- The loop of find_frame: the index of the first frame that matches.
unfoldable pub find_index : FilePath → ℕ → List BufferFrame → Option ℕ
find_index file_path page_id [] = none
find_index file_path page_id (frame ∷ frames) =
    let later = find_index file_path page_id frames in
    if frame_matches frame file_path page_id
    then some 0
    else elim later [ none ↦ none | some index ↦ some (suc index) ]

-- `frame->last_used_tick = ++cache->tick`
unfoldable pub touch : ℕ → BufferCache → BufferCache
touch index cache =
    let tick = (cache.tick + 1) % u64_mod in
    modify_frame index (λ f. record f { last_used_tick = tick }) (record cache { tick = tick })

unfoldable pub find_frame : FilePath → ℕ → BufferCache → Option ℕ × BufferCache
find_frame file_path page_id cache =
    maybe (find_index file_path page_id cache.frames) (none, cache)
      (λ index. (some index, touch index cache))

-- The first loop of choose_victim.
unfoldable pub free_index : List BufferFrame → Option ℕ
free_index [] = none
free_index (frame ∷ frames) =
    let later = free_index frames in
    if not frame.in_use then some 0 else elim later [ none ↦ none | some index ↦ some (suc index) ]

-- The second: the victim so far with its tick, and the frames from `index` on.
unfoldable pub oldest_from : ℕ → ℕ → ℕ → List BufferFrame → ℕ
oldest_from victim used index [] = victim
oldest_from victim used index (frame ∷ frames) =
    if ltb frame.last_used_tick used
    then oldest_from index frame.last_used_tick (suc index) frames
    else oldest_from victim used (suc index) frames

unfoldable pub oldest : List BufferFrame → ℕ
oldest [] = 0
oldest (frame ∷ frames) = oldest_from 0 frame.last_used_tick 1 frames

unfoldable pub choose_victim : Action Machine ℕ
choose_victim m =
    let victim = oldest m.cache.frames in
    let (flushed, m') = flush_frame victim m in
    maybe (free_index m.cache.frames) (continue flushed (λ _. pure victim) m')
      (λ index. (done index, m))

-- `strncpy(frame->file_path, file_path, MAX_PATH_LENGTH - 1U)` cuts a longer path.
unfoldable pub assign_frame : ℕ → FilePath → ℕ → BufferCache → BufferCache
assign_frame index file_path page_id cache = touch index (
    modify_frame index
      (λ f. record f {
        in_use = true;
        dirty = false;
        page_id = page_id;
        file_path = take (max_path_length - 1) file_path;
      })
      cache)

abbrev pub set_page : DataPage → BufferFrame → BufferFrame
set_page page frame = record frame { page = page }

-- `fread(&frame->page, ...)`: a short read overwrites the front of the page that was there.
unfoldable pub read_over : Bytes → DataPage → DataPage
read_over bytes page = page_of_bytes (bytes ++ drop (length bytes) (page_bytes page))

-- load_page after a miss, with the victim at `index` and the file opened.
unfoldable pub load_into : FilePath → ℕ → ℕ → Opened → Action Machine ℕ
load_into file_path page_id index missing m = (fail file_open_failed, m)
load_into file_path page_id index denied m = (fail file_open_failed, m)
load_into file_path page_id index (opened bytes) m =
    let read = read_at bytes (page_offset page_id) page_size in
    let page = read_over read (frame_at m.cache index).page in
    let loaded = on_cache (modify_frame index (set_page page)) m in
    if not (length read == page_size)
    then (fail file_open_failed, loaded)
    else (done index, on_cache (assign_frame index file_path page_id) loaded)

abbrev count_hit : BufferCache → BufferCache
count_hit cache = record cache { hit_count = (cache.hit_count + 1) % u64_mod }

abbrev count_miss : BufferCache → BufferCache
count_miss cache = record cache { miss_count = (cache.miss_count + 1) % u64_mod }

unfoldable pub load_missed : FilePath → ℕ → Action Machine ℕ
load_missed file_path page_id = do
  index ← choose_victim
  λ m. load_into file_path page_id index (open_read m.disk file_path) m

unfoldable pub buffer_cache_load_page : FilePath → ℕ → Action Machine ℕ
buffer_cache_load_page file_path page_id m =
    let (found, cache) = find_frame file_path page_id m.cache in
    maybe found (load_missed file_path page_id (record m { cache = count_miss cache }))
      (λ index. (done index, record m { cache = count_hit cache }))

abbrev fresh_page : ℕ → BufferFrame → BufferFrame
fresh_page page_id frame = record frame { page = page_init page_id; dirty = true }

unfoldable pub create_missed : FilePath → ℕ → Action Machine ℕ
create_missed file_path page_id = do
  index ← choose_victim
  modify_state (
      on_cache λ cache.
        modify_frame index (fresh_page page_id) (assign_frame index file_path page_id cache))
  pure index

unfoldable pub buffer_cache_create_page : FilePath → ℕ → Action Machine ℕ
buffer_cache_create_page file_path page_id m =
    let (found, cache) = find_frame file_path page_id m.cache in
    maybe found (create_missed file_path page_id (record m { cache = count_miss cache })) (λ index.
      (done index, record m { cache = modify_frame index (fresh_page page_id) (count_hit cache) }))

unfoldable pub buffer_cache_mark_dirty : FilePath → ℕ → BufferCache → BufferCache
buffer_cache_mark_dirty file_path page_id cache =
    let (found, touched) = find_frame file_path page_id cache in
    maybe found touched (λ index. modify_frame index (λ f. record f { dirty = true }) touched)

-- The loop of flush_file and flush_all over `rounds` frames from `index` on. `wanted` is the test
-- that the frame has to pass.
unfoldable pub flush_from : (BufferFrame → Bool) → ℕ → ℕ → Action Machine (Unit {0})
flush_from wanted zero index m = (done tt, m)
flush_from wanted (suc rounds) index m =
    let (result, flushed) =
      if wanted (frame_at m.cache index) then flush_frame index m else (done tt, m) in
    continue result (λ _. flush_from wanted rounds (suc index)) flushed

unfoldable pub buffer_cache_flush_file : FilePath → Action Machine (Unit {0})
buffer_cache_flush_file file_path =
    flush_from (λ f. f.in_use && bytes_eq f.file_path file_path) buffer_cache_capacity 0

unfoldable pub buffer_cache_flush_all : Action Machine (Unit {0})
buffer_cache_flush_all = flush_from (λ _. true) buffer_cache_capacity 0

unfoldable pub count_dirty : List BufferFrame → ℕ
count_dirty [] = 0
count_dirty (frame ∷ frames) = (if frame.in_use && frame.dirty then 1 else 0) + count_dirty frames

pub record CacheStats : Type 0 where
  pub hit : ℕ
  pub miss : ℕ
  pub dirty_pages : ℕ
  pub flushes : ℕ

unfoldable pub buffer_cache_get_stats : BufferCache → CacheStats
buffer_cache_get_stats cache = record {
  hit = cache.hit_count;
  miss = cache.miss_count;
  dirty_pages = count_dirty cache.frames;
  flushes = cache.flush_count;
}
