-- ===== src/Jihyun/Cache/Load.antt =====
-- buffer_cache_load_page returns the page that is seen, and keeps the machine sound.
use jungle_week6_coding_sess.Prelude.{
  ℕ, ◌+◌, ◌*◌, ◌%◌, ◌<◌, ◌≡◌, ◌≢◌, inl, inr, refl, sym, ap, subst, ◌∙◌, true, false, some, none, [],
  arith, length, Bytes, Option-cases, eq_of_some, append-nil, drop, drop_all, length-take,
  length-drop,
}
use jungle_week6_coding_sess.Prelude.Words.{u64_mod}
use jungle_week6_coding_sess.Jihyun.Action.{done}
use jungle_week6_coding_sess.Jihyun.Page.{
  DataPage, page_size, page_payload_size, page_bytes, page_of_bytes,
}
use jungle_week6_coding_sess.Jihyun.Page.Image.{IsSized, IsSized-page_of_bytes, length-page_bytes}
use jungle_week6_coding_sess.Libc.Disk.{Disk, FilePath, opened, open_read, read_at}
use jungle_week6_coding_sess.Jihyun.Cache.{
  BufferFrame, Machine, on_cache, max_path_length, frame_at, modify_frame, set_page, find_index,
  find_frame, touch, assign_frame, read_over, load_into, load_missed, buffer_cache_load_page,
  count_hit, count_miss,
}
use jungle_week6_coding_sess.Jihyun.Cache.Frames.{
  frame_at-modify_frame_self, frame_at-modify_frame_ne, length-modify_frame,
  frame_at-assign_frame_self, frame_at-assign_frame_ne, length-assign_frame,
}
use jungle_week6_coding_sess.Jihyun.Cache.Stored.{
  page_limit, stored_page, whole_page-length, whole_page-value, page_offset-eq,
}
use jungle_week6_coding_sess.Jihyun.Cache.View.{
  Matches, view, view-stored, found, not_found, view-Matches,
}
use jungle_week6_coding_sess.Jihyun.Cache.Steady.{
  Sound, Steady, Steady-trans, SameKeys, Steady-SameKeys, Permits, key, Matches-key, same_page,
}
use jungle_week6_coding_sess.Jihyun.Cache.Flush.{SameKeys-touch, dirty-touch}
use jungle_week6_coding_sess.Jihyun.Cache.Replace.{Replaced, Steady-Replaced}
use jungle_week6_coding_sess.Jihyun.Cache.Victim.{choose_victim-Chosen}

-- A page that is stored can be read: the file opens, and all of its bytes are there.
stored_page-open_read :
    (disk : Disk) (path : FilePath) (k : ℕ) (v : DataPage)
    → Permits disk
    → stored_page disk path k ≡ some v
    → (bytes : Bytes) × (open_read disk path ≡ opened bytes)
      × (length (read_at bytes (k * page_size) page_size) ≡ page_size)
      × (page_of_bytes (read_at bytes (k * page_size) page_size) ≡ v)
unfolding stored_page open_read
stored_page-open_read disk path k v p h = elim (Option-cases (disk.file path)) [
  | inl e ↦
      let empty = whole_page-length (read_at [] (k * page_size) page_size) v (rw e at h) in
      absurd (
        unfold read_at in
        omega (
          arith,
          empty,
          length-take {0} {A = ℕ} page_size (drop (k * page_size) []),
          length-drop {0} {A = ℕ} (k * page_size) [],
        ))
  | inr (bytes, e) ↦
      let stored = read_at bytes (k * page_size) page_size in
      let h' = rw e at h in
      (bytes, rw (e, p.reads path), whole_page-length stored v h', whole_page-value stored v h')
]

-- A full read replaces the page.
read_over-full :
    (bytes : Bytes) (page : DataPage)
    → length bytes ≡ page_size
    → length page.payload ≡ page_payload_size
    → read_over bytes page ≡ page_of_bytes bytes
unfolding read_over
read_over-full bytes page h k = rw (
  drop_all (length bytes) (page_bytes page) (omega (arith, length-page_bytes page k)),
  append-nil,
)

-- The page with number `k` of the file, loaded into frame `v`.
module _ (m : Machine) (s : Sound m) (v : ℕ) (inside : v < length m.cache.frames)
    (evictable : (frame_at m.cache v).in_use ≡ true → (frame_at m.cache v).dirty ≡ false)
    (path : FilePath) (k : ℕ) (page : DataPage)
    (absent : (j : ℕ) → ¬ Matches (frame_at m.cache j) path k) (in_limit : k < page_limit)
    (fits : length path < max_path_length) (stored : stored_page m.disk path k ≡ some page) where
  abbrev loaded : Machine
  loaded = on_cache (assign_frame v path k) (on_cache (modify_frame v (set_page page)) m)

  frame_loaded : frame_at loaded.cache v ≡ record {
    in_use = true;
    dirty = false;
    last_used_tick = (m.cache.tick + 1) % u64_mod;
    file_path = path;
    page_id = k;
    page = page;
  }
  unfolding modify_frame
  frame_loaded =
      let c = modify_frame v (set_page page) m.cache in
      frame_at-assign_frame_self c v path k (rw length-modify_frame inside) fits
      ∙ ap
          (λ (f : BufferFrame). record f {
            in_use = true;
            dirty = false;
            last_used_tick = (m.cache.tick + 1) % u64_mod;
            file_path = path;
            page_id = k;
          })
          (frame_at-modify_frame_self m.cache v (set_page page) inside)

  frame_other : (j : ℕ) → j ≢ v → frame_at loaded.cache j ≡ frame_at m.cache j
  frame_other j ne =
      frame_at-assign_frame_ne _ v path k j ne
      ∙ frame_at-modify_frame_ne m.cache v (set_page page) j ne

  loaded-Replaced : IsSized page → Replaced m loaded v path k page
  loaded-Replaced sized = record {
    frame_count = length-assign_frame _ v path k ∙ length-modify_frame m.cache v (set_page page);
    disk = refl;
    others = λ j ne. ap key (frame_other j ne);
    others_dirty = λ j ne. ap (λ (f : BufferFrame). f.dirty) (frame_other j ne);
    own = record {
      used = ap (λ (f : BufferFrame). f.in_use) frame_loaded;
      id = ap (λ (f : BufferFrame). f.page_id) frame_loaded;
      path_is = ap (λ (f : BufferFrame). f.file_path) frame_loaded;
    };
    own_page = ap (λ (f : BufferFrame). f.page) frame_loaded;
    evictable = λ p n h. inr (evictable h.used);
    absent = λ j _. absent j;
    in_limit = in_limit;
    path_fits = fits;
    sized = sized;
    own_clean = λ _. stored;
  }

  load_into-Replaced :
      (load_into path k v (open_read m.disk path) m ≡ (done v, loaded))
      × Replaced m loaded v path k page
  unfolding load_into
  load_into-Replaced =
      let (bytes, opens, whole, is_page) =
        stored_page-open_read m.disk path k page s.permits stored in
      let read = read_at bytes (k * page_size) page_size in
      let over =
        read_over-full read (frame_at m.cache v).page whole (s.coherent.payloads v) ∙ is_page in
      (
        rw (opens, load_into, page_offset-eq k in_limit, over, whole),
        loaded-Replaced (subst IsSized is_page (IsSized-page_of_bytes read whole)),
      )

-- A frame that was found, with the use counted.
pub Steady-touch : (m : Machine) (i : ℕ) → Sound m → Steady m (record m { cache = touch i m.cache })
Steady-touch m i s =
    Steady-SameKeys (SameKeys-touch m i) s refl (λ j d. sym (dirty-touch m.cache i j) ∙ d)

-- A change of the counters alone.
pub SameKeys-frames : (m m' : Machine) → m'.cache.frames ≡ m.cache.frames → SameKeys m m'
SameKeys-frames m m' e = record { frame_count = ap length e; keys = λ i. unfold frame_at in rw e }

pub Steady-frames :
    (m m' : Machine) → Sound m → m'.disk ≡ m.disk → m'.cache.frames ≡ m.cache.frames → Steady m m'
Steady-frames m m' s disk e =
    Steady-SameKeys (SameKeys-frames m m' e) s disk (λ j d. unfold frame_at in (rw e at d))

-- What load_page returns: the frame at `i` holds the page, and nothing is lost.
pub record Loaded (m m' : Machine) (i : ℕ) (path : FilePath) (k : ℕ) (page : DataPage)
    : Type 0 where
  pub steady : Steady m m'
  pub own : Matches (frame_at m'.cache i) path k
  pub own_page : (frame_at m'.cache i).page ≡ page

abbrev pub Loads : Machine → FilePath → ℕ → DataPage → Type 0
Loads m path k page =
    (m' : Machine) × (i : ℕ) × (buffer_cache_load_page path k m ≡ (done i, m'))
    × Loaded m m' i path k page

module _ (m : Machine) (path : FilePath) (k : ℕ) (page : DataPage) (s : Sound m)
    (in_limit : k < page_limit) (fits : length path < max_path_length)
    (seen : view m path k ≡ some page) where
  load_hit : (i : ℕ) → find_index path k m.cache.frames ≡ some i → Loads m path k page
  load_hit i e =
      let touched = record m { cache = touch i m.cache } in
      let m' = record m { cache = count_hit (touch i m.cache) } in
      let there = (found m path k i e).1 in
      let found_here : find_frame path k m.cache ≡ (some i, touch i m.cache) =
        unfold find_frame in rw e in
      let same = SameKeys-touch m i in
      let here : (frame_at touched.cache i).page ≡ page =
        eq_of_some
          (ap some (same_page same i) ∙ sym (view-Matches m path k s.coherent i there) ∙ seen) in
      (
        m',
        i,
        unfold buffer_cache_load_page in rw found_here,
        record {
          steady =
              Steady-trans (Steady-touch m i s)
                (Steady-frames touched m' (Steady-touch m i s).sound refl refl);
          own = unfold frame_at in Matches-key (sym (same.keys i)) there;
          own_page = unfold frame_at in here;
        },
      )

  load_miss : find_index path k m.cache.frames ≡ none → Loads m path k page
  load_miss e =
      let missed = record m { cache = count_miss m.cache } in
      let to_missed = Steady-frames m missed s refl refl in
      let (m1, v, chosen, c) = choose_victim-Chosen missed to_missed.sound in
      let absent : (j : ℕ) → ¬ Matches (frame_at m1.cache j) path k =
        λ j a. not_found m path k j e (unfold frame_at in Matches-key (c.same.keys j) a) in
      let kept = Steady-trans to_missed c.steady in
      let stored = sym (view-stored m1 path k absent) ∙ kept.keeps.at path k page seen in
      let (loads, r) =
        load_into-Replaced m1 kept.sound v c.inside c.evictable path k page absent in_limit fits
          stored in
      let found_none : find_frame path k m.cache ≡ (none, m.cache) = unfold find_frame in rw e in
      (
        on_cache (assign_frame v path k) (on_cache (modify_frame v (set_page page)) m1),
        v,
        unfold buffer_cache_load_page load_missed in rw (found_none, chosen, loads),
        record {
          steady =
              Steady-trans kept
                (Steady-Replaced kept.sound r (kept.keeps.at path k page seen) stored);
          own = r.own;
          own_page = r.own_page;
        },
      )

  -- In a sound machine, loading a page that is seen, with a number below the limit and a path that
  -- fits, succeeds: the frame that is returned is for this page and holds it, the machine is sound,
  -- and every page that was seen is still seen.
  pub load_page-Loaded : Loads m path k page
  load_page-Loaded = elim (Option-cases (find_index path k m.cache.frames)) [
    | inr (i, e) ↦ load_hit i e
    | inl e ↦ load_miss e
  ]
