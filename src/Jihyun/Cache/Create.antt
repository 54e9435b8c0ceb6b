-- ===== src/Jihyun/Cache/Create.antt =====
-- buffer_cache_create_page adds a page behind the last one of its file.
use jungle_week6_coding_sess.Prelude.{
  ℕ, suc, ◌+◌, ◌%◌, ◌<◌, ◌≤◌, ◌≡◌, ◌≢◌, inl, inr, refl, sym, ap, ◌∙◌, true, false, some, none,
  arith, length, Option-cases, length-replicate,
}
use jungle_week6_coding_sess.Prelude.Words.{u64_mod}
use jungle_week6_coding_sess.Jihyun.Action.{done}
use jungle_week6_coding_sess.Jihyun.Page.{DataPage, page_payload_size, page_init, zero_page}
use jungle_week6_coding_sess.Jihyun.Page.Image.{IsSized}
use jungle_week6_coding_sess.Libc.Disk.{FilePath}
use jungle_week6_coding_sess.Jihyun.Cache.{
  BufferFrame, Machine, on_cache, max_path_length, frame_at, modify_frame, find_index, find_frame,
  assign_frame, buffer_cache_create_page, create_missed, fresh_page, count_miss,
}
use jungle_week6_coding_sess.Jihyun.Cache.Frames.{
  frame_at-modify_frame_self, frame_at-modify_frame_ne, length-modify_frame,
  frame_at-assign_frame_self, frame_at-assign_frame_ne, length-assign_frame,
}
use jungle_week6_coding_sess.Jihyun.Cache.Stored.{page_limit, stored_page-inside}
use jungle_week6_coding_sess.Jihyun.Cache.View.{
  Matches, view, view-stored, found, Keeps, Keeps-trans,
}
use jungle_week6_coding_sess.Jihyun.Cache.Steady.{Sound, Steady-trans, Within, key, file_length}
use jungle_week6_coding_sess.Jihyun.Cache.Replace.{
  Replaced, Sound-Replaced, view-Replaced_ne, Within-Replaced, key_cases,
}
use jungle_week6_coding_sess.Jihyun.Cache.Victim.{choose_victim-Chosen}
use jungle_week6_coding_sess.Jihyun.Cache.Load.{Steady-frames}

pub IsSized-page_init : (k : ℕ) → k < page_limit → IsSized (page_init k)
unfolding page_init zero_page
IsSized-page_init k h = record {
  page_id = omega arith;
  next_page_id = omega arith;
  row_count = omega arith;
  used_bytes = omega arith;
  payload = length-replicate page_payload_size 0;
}

-- A page behind the end of the file has no frame and is not stored.
pub Within-absent :
    (m : Machine) (path : FilePath) (k : ℕ)
    → Within m path k
    → (j : ℕ) → ¬ Matches (frame_at m.cache j) path k
Within-absent m path k w j a = omega (arith, w.frames j a.used a.path_is, a.id)

-- What create_page leaves: the frame at `i` holds the fresh page, dirty, and nothing is lost.
pub record Created (m m' : Machine) (i : ℕ) (path : FilePath) (k : ℕ) : Type 0 where
  pub sound : Sound m'
  pub own : Matches (frame_at m'.cache i) path k
  pub own_page : (frame_at m'.cache i).page ≡ page_init k
  pub keeps : Keeps m m'
  pub within_self : Within m' path (suc k)
  pub within : (p : FilePath) (limit : ℕ) → p ≢ path → Within m p limit → Within m' p limit
  pub grows : (p : FilePath) → file_length m p ≤ file_length m' p

module _ (m : Machine) (s : Sound m) (v : ℕ) (inside : v < length m.cache.frames)
    (evictable : (frame_at m.cache v).in_use ≡ true → (frame_at m.cache v).dirty ≡ false)
    (path : FilePath) (k : ℕ) (in_limit : k < page_limit) (fits : length path < max_path_length)
    (w : Within m path k) where
  abbrev created : Machine
  created = on_cache (λ cache. modify_frame v (fresh_page k) (assign_frame v path k cache)) m

  frame_created : frame_at created.cache v ≡ record {
    in_use = true;
    dirty = true;
    last_used_tick = (m.cache.tick + 1) % u64_mod;
    file_path = path;
    page_id = k;
    page = page_init k;
  }
  frame_created =
      frame_at-modify_frame_self _ v (fresh_page k) (rw length-assign_frame inside)
      ∙ ap (fresh_page k) (frame_at-assign_frame_self m.cache v path k inside fits)

  frame_other : (j : ℕ) → j ≢ v → frame_at created.cache j ≡ frame_at m.cache j
  frame_other j ne =
      frame_at-modify_frame_ne _ v (fresh_page k) j ne
      ∙ frame_at-assign_frame_ne m.cache v path k j ne

  created-Replaced : Replaced m created v path k (page_init k)
  created-Replaced = record {
    frame_count = length-modify_frame _ v (fresh_page k) ∙ length-assign_frame m.cache v path k;
    disk = refl;
    others = λ j ne. ap key (frame_other j ne);
    others_dirty = λ j ne. ap (λ (f : BufferFrame). f.dirty) (frame_other j ne);
    own = record {
      used = ap (λ (f : BufferFrame). f.in_use) frame_created;
      id = ap (λ (f : BufferFrame). f.page_id) frame_created;
      path_is = ap (λ (f : BufferFrame). f.file_path) frame_created;
    };
    own_page = ap (λ (f : BufferFrame). f.page) frame_created;
    evictable = λ p n h. inr (evictable h.used);
    absent = λ j _. Within-absent m path k w j;
    in_limit = in_limit;
    path_fits = fits;
    sized = IsSized-page_init k in_limit;
    own_clean = λ d. cc (ap (λ (f : BufferFrame). f.dirty) frame_created);
  }

  not_seen : (page : DataPage) → view m path k ≡ some page → ⊥
  not_seen page h = omega (
    arith,
    stored_page-inside m.disk path k page
        (sym (view-stored m path k (Within-absent m path k w)) ∙ h),
    w.whole,
    w.at_most,
  )

  widened : Within m path (suc k)
  widened = record {
    pages = w.pages;
    whole = w.whole;
    at_most = omega (arith, w.at_most);
    frames = λ i u e. omega (arith, w.frames i u e);
  }

  created-Created : Created m created v path k
  created-Created = record {
    sound = Sound-Replaced s created-Replaced;
    own = created-Replaced.own;
    own_page = created-Replaced.own_page;
    keeps = record {
      at = λ p n page h. elim (key_cases s created-Replaced p n) [
        | inl (ep, en) ↦ absurd (not_seen page (rw (ep, en) at h))
        | inr ne ↦ view-Replaced_ne s created-Replaced p n page ne h
      ];
    };
    within_self = Within-Replaced s created-Replaced path (suc k) (λ _. omega arith) widened;
    within = λ p limit ne wp. Within-Replaced s created-Replaced p limit (λ e. absurd (ne e)) wp;
    grows = λ p. omega arith;
  }

find_none :
    (m : Machine) (path : FilePath) (k : ℕ)
    → Within m path k
    → find_frame path k m.cache ≡ (none, m.cache)
unfolding find_frame
find_none m path k w = elim (Option-cases (find_index path k m.cache.frames)) [
  | inl e ↦ rw e
  | inr (i, e) ↦ absurd (Within-absent m path k w i (found m path k i e).1)
]

-- In a sound machine, if all pages of a file and its frames are below `k`, a page with the number
-- `k` below the limit can be created: the frame that is returned is for this page and holds a
-- fresh one, the machine is sound, and every page that was seen is still seen.
pub create_page-Created :
    (m : Machine) (path : FilePath) (k : ℕ)
    → Sound m
    → k < page_limit
    → length path < max_path_length
    → Within m path k
    → (m' : Machine) × (i : ℕ) × (buffer_cache_create_page path k m ≡ (done i, m'))
      × Created m m' i path k
create_page-Created m path k s in_limit fits w =
    let missed = record m { cache = count_miss m.cache } in
    let to_missed = Steady-frames m missed s refl refl in
    let (m1, v, chosen, c) = choose_victim-Chosen missed to_missed.sound in
    let kept = Steady-trans to_missed c.steady in
    let w1 = kept.within path k w in
    let r = created-Created m1 kept.sound v c.inside c.evictable path k in_limit fits w1 in
    (
      on_cache (λ cache. modify_frame v (fresh_page k) (assign_frame v path k cache)) m1,
      v,
      unfold buffer_cache_create_page create_missed in rw (find_none m path k w, chosen),
      record {
        sound = r.sound;
        own = r.own;
        own_page = r.own_page;
        keeps = Keeps-trans kept.keeps r.keeps;
        within_self = r.within_self;
        within = λ p limit ne wp. r.within p limit ne (kept.within p limit wp);
        grows = λ p. omega (arith, kept.grows p, r.grows p);
      },
    )
