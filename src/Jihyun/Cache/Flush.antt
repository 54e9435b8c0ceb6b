-- ===== src/Jihyun/Cache/Flush.antt =====
-- flush_frame, and the touch of find_frame.
use mathlib.Core.Bool.{false≢true}
use native.Mathlib.Decide.{ℕ_discrete}
use Prim.Native.Nat.{max}
use jungle_week6_coding_sess.Prelude.{
  ℕ, ◌+◌, ◌*◌, ◌≤◌, ◌≡◌, ◌≢◌, ◌⊎◌, inl, inr, refl, sym, ap, subst, ◌∙◌, true, false, Option, none,
  some, arith, length, Bytes, Bool-cases, bytes_eq, bytes_eq_iff, [],
}
use jungle_week6_coding_sess.Jihyun.Action.{done}
use jungle_week6_coding_sess.Jihyun.Page.{DataPage, page_size, page_bytes}
use jungle_week6_coding_sess.Libc.Disk.{
  Disk, FilePath, contents, open_update, exists, store_file, write_at,
}
use jungle_week6_coding_sess.Jihyun.Cache.{
  BufferFrame, BufferCache, Machine, frame_at, touch, flush_frame, flush_opened, write_frame,
}
use jungle_week6_coding_sess.Jihyun.Cache.Frames.{
  frame_at-modify_frame_self, frame_at-modify_frame_ne, frame_at-modify_frame_keeps,
  length-modify_frame,
}
use jungle_week6_coding_sess.Jihyun.Cache.Stored.{
  stored_page, page_offset-eq, written, stored_page-written, stored_page-written_ne, length-written,
  file-written_ne,
}
use jungle_week6_coding_sess.Jihyun.Cache.View.{Matches, Coherent, in_use-lt-length}
use jungle_week6_coding_sess.Jihyun.Cache.Steady.{
  Permits, Sound, Steady, Steady-refl, SameKeys, key, file_length, Coherent-SameKeys,
  Keeps-SameKeys, Within-SameKeys, Within,
}

pub SameKeys-touch :
    (m : Machine) (index : ℕ) → SameKeys m (record m { cache = touch index m.cache })
unfolding touch frame_at
SameKeys-touch m index = record {
  frame_count = length-modify_frame _ index _;
  keys = λ i. unfold frame_at in frame_at-modify_frame_keeps _ index _ key i (λ x. refl);
}

pub dirty-touch :
    (cache : BufferCache) (index i : ℕ)
    → (frame_at (touch index cache) i).dirty ≡ (frame_at cache i).dirty
unfolding touch frame_at
dirty-touch cache index i = frame_at-modify_frame_keeps _ index _ (λ f. f.dirty) i (λ x. refl)

-- The disk with a file opened for update: its contents are those from before.
pub record Opens (disk opened : Disk) : Type 0 where
  pub same : (path : FilePath) → contents (opened.file path) ≡ contents (disk.file path)
  pub permits : Permits opened

contents-absent : (o : Option Bytes) → exists o ≡ false → contents o ≡ []
contents-absent none h = refl
contents-absent (some b) h = cc

pub contents-store_empty :
    (disk : Disk) (path p : FilePath)
    → exists (disk.file path) ≡ false
    → contents ((store_file disk path []).file p) ≡ contents (disk.file p)
unfolding store_file
contents-store_empty disk path p h = elim (Bool-cases (bytes_eq p path)) [
  | inl e ↦ rw e (rw ((bytes_eq_iff p path).0 e) (sym (contents-absent (disk.file path) h)))
  | inr e ↦ rw e
]

pub Permits-store_file :
    (disk : Disk) (path : FilePath) (bytes : Bytes)
    → Permits disk
    → Permits (store_file disk path bytes)
unfolding store_file
Permits-store_file disk path bytes h = record { reads = h.reads; writes = h.writes }

open_update-Permits :
    (disk : Disk) (path : FilePath)
    → Permits disk
    → (opened : Disk) × (open_update disk path ≡ some opened) × Opens disk opened
unfolding open_update
open_update-Permits disk path h = elim (Bool-cases (exists (disk.file path))) [
  | inl there ↦
      (disk, rw (there, h.reads path, h.writes path), record { same = λ p. refl; permits = h })
  | inr absent ↦ (
    store_file disk path [],
    rw (absent, h.writes path),
    record {
      same = λ p. contents-store_empty disk path p absent;
      permits = Permits-store_file disk path [] h;
    },
  )
]

pub stored_page-Opens :
    {disk opened : Disk}
    → Opens disk opened
    → (path : FilePath) (k : ℕ) → stored_page opened path k ≡ stored_page disk path k
unfolding stored_page
stored_page-Opens o path k = rw (o.same path)

-- What flush_frame leaves: the same frames, the one at `i` clean, and none dirty that was clean.
pub record Flushed (m m' : Machine) (i : ℕ) : Type 0 where
  pub steady : Steady m m'
  pub same : SameKeys m m'
  pub cleaned : (frame_at m'.cache i).in_use ≡ true → (frame_at m'.cache i).dirty ≡ false
  pub stays_clean :
      (j : ℕ) → (frame_at m.cache j).dirty ≡ false → (frame_at m'.cache j).dirty ≡ false

differs : (p path : FilePath) (k id : ℕ) → ((p ≡ path) → (k ≡ id) → ⊥) → (p ≢ path) ⊎ (k ≢ id)
differs p path k id h = elim (Bool-cases (bytes_eq p path)) [
  | inl e ↦ inr (λ q. h ((bytes_eq_iff p path).0 e) q)
  | inr e ↦ inl (λ q. false≢true (sym e ∙ (bytes_eq_iff p path).1 q))
]

-- The write of a dirty frame, with its file opened for update.
module _ (m : Machine) (s : Sound m) (i : ℕ) (used : (frame_at m.cache i).in_use ≡ true)
    (opened : Disk) (o : Opens m.disk opened) where
  abbrev frame : BufferFrame
  frame = frame_at m.cache i

  abbrev after : Machine
  after = write_frame i (frame_at m.cache i) opened m

  own : Matches (frame_at m.cache i) (frame_at m.cache i).file_path (frame_at m.cache i).page_id
  own = record { used = used; id = refl; path_is = refl }

  same : SameKeys m after
  unfolding write_frame
  same = record {
    frame_count = length-modify_frame m.cache i _;
    keys = λ j. unfold frame_at in frame_at-modify_frame_keeps m.cache i _ key j (λ x. refl);
  }

  dirty_self : (frame_at after.cache i).dirty ≡ false
  unfolding write_frame frame_at
  dirty_self =
      ap (λ (f : BufferFrame). f.dirty)
        (frame_at-modify_frame_self m.cache i _ (in_use-lt-length m.cache i used))

  dirty_other : (j : ℕ) → j ≢ i → (frame_at after.cache j).dirty ≡ (frame_at m.cache j).dirty
  unfolding write_frame frame_at
  dirty_other j ne = ap (λ (f : BufferFrame). f.dirty) (frame_at-modify_frame_ne m.cache i _ j ne)

  disk_after :
      after.disk ≡ written opened frame.file_path frame.page_id frame.page (s.coherent.sized i used)
  unfolding write_frame
  disk_after =
      ap
        (λ n.
          write_at opened (frame_at m.cache i).file_path n (page_bytes (frame_at m.cache i).page))
        (page_offset-eq _ (s.coherent.in_limit i used))

  stored_self : stored_page after.disk frame.file_path frame.page_id ≡ some frame.page
  stored_self = rw disk_after (
      stored_page-written opened frame.file_path frame.page_id frame.page (s.coherent.sized i used))

  stored_other :
      (p : FilePath) (k : ℕ) (v : DataPage)
      → ((p ≡ frame.file_path) → (k ≡ frame.page_id) → ⊥)
      → stored_page m.disk p k ≡ some v
      → stored_page after.disk p k ≡ some v
  stored_other p k v ne h = rw disk_after (
      stored_page-written_ne opened frame.file_path frame.page_id frame.page
        (s.coherent.sized i used) p k v (differs p frame.file_path k frame.page_id ne)
        (stored_page-Opens o p k ∙ h))

  clean_after :
      (j : ℕ) (p : FilePath) (k : ℕ)
      → Matches (frame_at m.cache j) p k
      → (frame_at after.cache j).dirty ≡ false
      → stored_page after.disk p k ≡ some (frame_at m.cache j).page
  clean_after j p k a d = elim (ℕ_discrete j i) [
    | yes e ↦
        let b = subst (λ (n : ℕ). Matches (frame_at m.cache n) p k) e a in
        subst (λ (n : ℕ). stored_page after.disk p k ≡ some (frame_at m.cache n).page) (sym e)
          (rw (← b.path_is, ← b.id) stored_self)
    | no ne ↦
        stored_other p k _
          (λ x y.
            ne
              (s.coherent.distinct j i p k a (record { used = used; id = sym y; path_is = sym x })))
          (s.coherent.clean j p k a (sym (dirty_other j ne) ∙ d))
  ]

  Coherent-after : Coherent after
  Coherent-after = Coherent-SameKeys same s.coherent clean_after

  Permits-after : Permits after.disk
  Permits-after = rw disk_after (unfold write_at in Permits-store_file opened _ _ o.permits)

  length_self :
      file_length after frame.file_path
      ≡ max (frame.page_id * page_size + page_size) (file_length m frame.file_path)
  length_self = rw (
    disk_after,
    length-written opened frame.file_path frame.page_id frame.page (s.coherent.sized i used),
    o.same,
  )

  length_other : (p : FilePath) → p ≢ frame.file_path → file_length after p ≡ file_length m p
  length_other p ne = rw (
    disk_after,
    file-written_ne opened frame.file_path frame.page_id frame.page (s.coherent.sized i used) p ne,
    o.same,
  )

  path_cases : (p : FilePath) → (p ≡ frame.file_path) ⊎ (p ≢ frame.file_path)
  path_cases p = elim (Bool-cases (bytes_eq p frame.file_path)) [
    | inl e ↦ inl ((bytes_eq_iff p frame.file_path).0 e)
    | inr e ↦ inr (λ q. false≢true (sym e ∙ (bytes_eq_iff p frame.file_path).1 q))
  ]

  Within-after : (p : FilePath) (limit : ℕ) → Within m p limit → Within after p limit
  Within-after p limit w = elim (path_cases p) [
    | inl e ↦
        Within-SameKeys same p limit (max (frame.page_id + 1) w.pages) w
          (omega (arith, ap (file_length after) e, ap (file_length m) e, length_self, w.whole))
          (omega (arith, w.frames i used (sym e), w.at_most))
    | inr ne ↦ Within-SameKeys same p limit w.pages w (length_other p ne ∙ w.whole) w.at_most
  ]

  grows_after : (p : FilePath) → file_length m p ≤ file_length after p
  grows_after p = elim (path_cases p) [
    | inl e ↦ omega (arith, ap (file_length after) e, ap (file_length m) e, length_self)
    | inr ne ↦ omega (arith, length_other p ne)
  ]

  write_frame-Flushed : Flushed m after i
  write_frame-Flushed = record {
    steady = record {
      sound = record { coherent = Coherent-after; permits = Permits-after };
      keeps = Keeps-SameKeys same s.coherent Coherent-after (λ p k v no_frame h.
          stored_other p k v
            (λ x y. no_frame i (record { used = used; id = sym y; path_is = sym x })) h);
      within = Within-after;
      grows = grows_after;
    };
    same = same;
    cleaned = λ _. dirty_self;
    stays_clean =
        λ j d. elim (ℕ_discrete j i) [ yes e ↦ rw e dirty_self | no ne ↦ dirty_other j ne ∙ d ];
  }

nothing_to_flush :
    (m : Machine) (i : ℕ)
    → Sound m
    → ((frame_at m.cache i).in_use ≡ true → (frame_at m.cache i).dirty ≡ false)
    → Flushed m m i
nothing_to_flush m i s h = record {
  steady = Steady-refl s;
  same = record { frame_count = refl; keys = λ j. refl };
  cleaned = h;
  stays_clean = λ j d. d;
}

-- In a sound machine flush_frame succeeds: the frame is clean if it is in use, no clean frame has
-- become dirty, every frame is for the same page, and every page that was seen is still seen.
pub flush_frame-Flushed :
    (m : Machine) (i : ℕ)
    → Sound m
    → (m' : Machine) × (flush_frame i m ≡ (done tt, m')) × Flushed m m' i
unfolding flush_frame flush_opened
flush_frame-Flushed m i s =
    let f = frame_at m.cache i in
    let (opened, e, o) = open_update-Permits m.disk f.file_path s.permits in
    elim (Bool-cases f.in_use) [
      | inr unused ↦ (m, rw unused, nothing_to_flush m i s (λ u. cc))
      | inl used ↦ elim (Bool-cases f.dirty) [
        | inr clean ↦ (m, rw (used, clean), nothing_to_flush m i s (λ _. clean))
        | inl dirty ↦
            (write_frame i f opened m, rw (used, dirty, e), write_frame-Flushed m s i used opened o)
      ]
    ]

-- A file that is created empty changes nothing that is seen.
pub Steady-Opens :
    (m : Machine) (opened : Disk)
    → Sound m
    → Opens m.disk opened
    → Steady m (record m { disk = opened })
Steady-Opens m opened s o =
    let same : SameKeys m (record m { disk = opened }) = record {
      frame_count = refl;
      keys = λ i. refl;
    } in
    let c =
      Coherent-SameKeys same s.coherent
        (λ i p k a d. stored_page-Opens o p k ∙ s.coherent.clean i p k a d) in
    record {
      sound = record { coherent = c; permits = o.permits };
      keeps = Keeps-SameKeys same s.coherent c (λ p k v _ h. stored_page-Opens o p k ∙ h);
      within = λ p limit w.
          Within-SameKeys same p limit w.pages w (ap length (o.same p) ∙ w.whole) w.at_most;
      grows = λ p. omega (arith, ap length (o.same p));
    }
