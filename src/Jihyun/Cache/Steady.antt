-- ===== src/Jihyun/Cache/Steady.antt =====
-- Steps of the machine that keep it sound: the cache agrees with the files, no page is lost, and
-- no file grows beyond its pages.
use jungle_week6_coding_sess.Prelude.{
  ℕ, ◌*◌, ◌<◌, ◌≤◌, ◌≡◌, inl, inr, sym, ap, ◌∙◌, Bool, true, false, some, arith, length,
}
use jungle_week6_coding_sess.Jihyun.Page.{DataPage, page_size}
use jungle_week6_coding_sess.Libc.Disk.{Disk, FilePath, contents}
use jungle_week6_coding_sess.Jihyun.Cache.{BufferFrame, Machine, frame_at}
use jungle_week6_coding_sess.Jihyun.Cache.Stored.{stored_page}
use jungle_week6_coding_sess.Jihyun.Cache.View.{
  Matches, Coherent, view-Matches, view-stored, Matches-cases, Keeps, Keeps-refl, Keeps-trans,
}

-- The process may read and write every file.
pub record Permits (disk : Disk) : Type 0 where
  pub reads : (path : FilePath) → disk.can_read path ≡ true
  pub writes : (path : FilePath) → disk.can_write path ≡ true

abbrev pub file_length : Machine → FilePath → ℕ
file_length m path = length (contents (m.disk.file path))

-- The file is a row of whole pages, `limit` at most, and its frames hold pages below `limit`.
pub record Within (m : Machine) (path : FilePath) (limit : ℕ) : Type 0 where
  pub pages : ℕ
  pub whole : file_length m path ≡ pages * page_size
  pub at_most : pages ≤ limit
  pub frames :
      (i : ℕ)
      → (frame_at m.cache i).in_use ≡ true
      → (frame_at m.cache i).file_path ≡ path
      → (frame_at m.cache i).page_id < limit

pub record Sound (m : Machine) : Type 0 where
  pub coherent : Coherent m
  pub permits : Permits m.disk

-- From a sound machine to a sound machine: nothing that was seen is lost, the pages of every
-- file stay within its limit, and no file shrinks.
pub record Steady (m m' : Machine) : Type 0 where
  pub sound : Sound m'
  pub keeps : Keeps m m'
  pub within : (path : FilePath) (limit : ℕ) → Within m path limit → Within m' path limit
  pub grows : (path : FilePath) → file_length m path ≤ file_length m' path

pub Steady-refl : {m : Machine} → Sound m → Steady m m
Steady-refl {m} s = record {
  sound = s;
  keeps = Keeps-refl m;
  within = λ path limit h. h;
  grows = λ path. omega arith;
}

pub Steady-trans : {l m n : Machine} → Steady l m → Steady m n → Steady l n
Steady-trans a b = record {
  sound = b.sound;
  keeps = Keeps-trans a.keeps b.keeps;
  within = λ path limit h. b.within path limit (a.within path limit h);
  grows = λ path. omega (arith, a.grows path, b.grows path);
}

-- What a frame is for: all of it but the dirty mark and the tick.
abbrev pub key : BufferFrame → Bool × FilePath × ℕ × DataPage
key f = (f.in_use, f.file_path, f.page_id, f.page)

pub Matches-key :
    {f g : BufferFrame} {path : FilePath} {k : ℕ}
    → key g ≡ key f
    → Matches g path k
    → Matches f path k
Matches-key e h = record {
  used = sym (ap (λ (t : Bool × FilePath × ℕ × DataPage). t.0) e) ∙ h.used;
  id = sym (ap (λ (t : Bool × FilePath × ℕ × DataPage). t.2) e) ∙ h.id;
  path_is = sym (ap (λ (t : Bool × FilePath × ℕ × DataPage). t.1) e) ∙ h.path_is;
}

-- The frames of both machines are for the same pages.
pub record SameKeys (m m' : Machine) : Type 0 where
  pub frame_count : length m'.cache.frames ≡ length m.cache.frames
  pub keys : (i : ℕ) → key (frame_at m'.cache i) ≡ key (frame_at m.cache i)

module _ {m m' : Machine} (same : SameKeys m m') where
  pub same_used : (i : ℕ) → (frame_at m'.cache i).in_use ≡ (frame_at m.cache i).in_use
  same_used i = ap (λ (t : Bool × FilePath × ℕ × DataPage). t.0) (same.keys i)

  pub same_path : (i : ℕ) → (frame_at m'.cache i).file_path ≡ (frame_at m.cache i).file_path
  same_path i = ap (λ (t : Bool × FilePath × ℕ × DataPage). t.1) (same.keys i)

  pub same_id : (i : ℕ) → (frame_at m'.cache i).page_id ≡ (frame_at m.cache i).page_id
  same_id i = ap (λ (t : Bool × FilePath × ℕ × DataPage). t.2) (same.keys i)

  pub same_page : (i : ℕ) → (frame_at m'.cache i).page ≡ (frame_at m.cache i).page
  same_page i = ap (λ (t : Bool × FilePath × ℕ × DataPage). t.3) (same.keys i)

  -- The bounds and the distinctness speak of keys alone; what clean frames hold is left to show.
  pub Coherent-SameKeys :
      Coherent m
      → ((i : ℕ) (path : FilePath) (k : ℕ)
          → Matches (frame_at m.cache i) path k
          → (frame_at m'.cache i).dirty ≡ false
          → stored_page m'.disk path k ≡ some (frame_at m.cache i).page)
      → Coherent m'
  Coherent-SameKeys c clean = record {
    frame_count = same.frame_count ∙ c.frame_count;
    distinct = λ i j path k a b.
        c.distinct i j path k (Matches-key (same.keys i) a) (Matches-key (same.keys j) b);
    in_limit = λ i u. rw (same_id i) (c.in_limit i (sym (same_used i) ∙ u));
    path_fits = λ i u. rw (same_path i) (c.path_fits i (sym (same_used i) ∙ u));
    sized = λ i u. rw (same_page i) (c.sized i (sym (same_used i) ∙ u));
    payloads = λ i. rw (same_page i) (c.payloads i);
    clean = λ i path k a d.
        clean i path k (Matches-key (same.keys i) a) d ∙ ap some (sym (same_page i));
  }

  pub Keeps-SameKeys :
      Coherent m
      → Coherent m'
      → ((path : FilePath) (k : ℕ) (v : DataPage)
          → ((i : ℕ) → ¬ Matches (frame_at m.cache i) path k)
          → stored_page m.disk path k ≡ some v
          → stored_page m'.disk path k ≡ some v)
      → Keeps m m'
  Keeps-SameKeys c c' stored = record {
    at = λ path k v h. elim (Matches-cases m path k) [
      | inl (i, a) ↦
          view-Matches m' path k c' i (Matches-key (sym (same.keys i)) a)
          ∙ ap some (same_page i)
          ∙ sym (view-Matches m path k c i a)
          ∙ h
      | inr no_frame ↦
          view-stored m' path k (λ i a. no_frame i (Matches-key (same.keys i) a))
          ∙ stored path k v no_frame (sym (view-stored m path k no_frame) ∙ h)
    ];
  }

  pub Within-SameKeys :
      (path : FilePath) (limit pages : ℕ)
      → Within m path limit
      → file_length m' path ≡ pages * page_size
      → pages ≤ limit
      → Within m' path limit
  Within-SameKeys path limit pages w whole at_most = record {
    pages = pages;
    whole = whole;
    at_most = at_most;
    frames = λ i u p. rw (same_id i) (w.frames i (sym (same_used i) ∙ u) (sym (same_path i) ∙ p));
  }

  -- A step that writes no file and cleans no frame.
  pub Steady-SameKeys :
      Sound m
      → m'.disk ≡ m.disk
      → ((i : ℕ) → (frame_at m'.cache i).dirty ≡ false → (frame_at m.cache i).dirty ≡ false)
      → Steady m m'
  Steady-SameKeys s disk dirty =
      let c' =
        Coherent-SameKeys s.coherent
          (λ i path k a d. rw disk (s.coherent.clean i path k a (dirty i d))) in
      record {
        sound = record { coherent = c'; permits = rw disk s.permits };
        keeps = Keeps-SameKeys s.coherent c' (λ path k v _ h. rw disk h);
        within = λ path limit w. Within-SameKeys path limit w.pages w (rw disk w.whole) w.at_most;
        grows = λ path. rw disk (omega arith);
      }
