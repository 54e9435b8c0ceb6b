-- ===== src/Jihyun/Cache/Edit.antt =====
-- A client's write into a page through its pointer, followed by buffer_cache_mark_dirty.
use jungle_week6_coding_sess.Prelude.{
  ℕ, ◌+◌, ◌%◌, ◌<◌, ◌≡◌, ◌≢◌, inl, inr, refl, sym, ap, ◌∙◌, Bool, true, some, length, Option-cases,
}
use jungle_week6_coding_sess.Prelude.Words.{u64_mod}
use jungle_week6_coding_sess.Jihyun.Page.{DataPage}
use jungle_week6_coding_sess.Jihyun.Page.Image.{IsSized}
use jungle_week6_coding_sess.Libc.Disk.{FilePath}
use jungle_week6_coding_sess.Jihyun.Cache.{
  BufferFrame, BufferCache, Machine, on_cache, set_page, frame_at, modify_frame, touch, find_index,
  find_frame, buffer_cache_mark_dirty,
}
use jungle_week6_coding_sess.Jihyun.Cache.Frames.{
  frame_at-modify_frame_self, frame_at-modify_frame_ne, frame_at-modify_frame_keeps,
  length-modify_frame, frame_at-touch_self, frame_at-touch_ne, length-touch,
}
use jungle_week6_coding_sess.Jihyun.Cache.View.{Matches, view, found, not_found, in_use-lt-length}
use jungle_week6_coding_sess.Jihyun.Cache.Steady.{Sound, Within, key, file_length}
use jungle_week6_coding_sess.Jihyun.Cache.Replace.{
  Replaced, Sound-Replaced, view-Replaced, view-Replaced_ne, Within-Replaced,
}

module _ (m : Machine) (s : Sound m) (path : FilePath) (k i : ℕ)
    (own : Matches (frame_at m.cache i) path k) (page : DataPage) (sized : IsSized page) where
  abbrev written_cache : BufferCache
  written_cache = modify_frame i (set_page page) m.cache

  abbrev pub edited : Machine
  edited = on_cache (buffer_cache_mark_dirty path k) (on_cache (modify_frame i (set_page page)) m)

  inside : i < length m.cache.frames
  inside = in_use-lt-length m.cache i own.used

  abbrev place : BufferFrame → Bool × ℕ × FilePath
  place f = (f.in_use, f.page_id, f.file_path)

  same_place : (j : ℕ) → place (frame_at written_cache j) ≡ place (frame_at m.cache j)
  same_place j = frame_at-modify_frame_keeps m.cache i (set_page page) place j (λ x. refl)

  Matches-place : {f g : BufferFrame} → place g ≡ place f → Matches g path k → Matches f path k
  Matches-place e h = record {
    used = sym (ap (λ (t : Bool × ℕ × FilePath). t.0) e) ∙ h.used;
    id = sym (ap (λ (t : Bool × ℕ × FilePath). t.1) e) ∙ h.id;
    path_is = sym (ap (λ (t : Bool × ℕ × FilePath). t.2) e) ∙ h.path_is;
  }

  find_own : find_index path k written_cache.frames ≡ some i
  find_own =
      let m1 = record m { cache = written_cache } in
      elim (Option-cases (find_index path k written_cache.frames)) [
        | inl e ↦ absurd (not_found m1 path k i e (Matches-place (sym (same_place i)) own))
        | inr (j, e) ↦
            e
            ∙ ap some (
                s.coherent.distinct j i path k
                  (Matches-place (same_place j) (found m1 path k j e).1) own)
      ]

  cache_edited :
      edited.cache ≡ modify_frame i (λ f. record f { dirty = true }) (touch i written_cache)
  unfolding buffer_cache_mark_dirty find_frame
  cache_edited = rw find_own

  frame_edited : frame_at edited.cache i ≡ record (frame_at m.cache i) {
    dirty = true;
    last_used_tick = (m.cache.tick + 1) % u64_mod;
    page = page;
  }
  unfolding modify_frame
  frame_edited =
      let tick = (m.cache.tick + 1) % u64_mod in
      let there : i < length written_cache.frames =
        rw (length-modify_frame m.cache i (set_page page)) inside in
      ap (λ (c : BufferCache). frame_at c i) cache_edited
      ∙ frame_at-modify_frame_self _ i _ (rw length-touch there)
      ∙ ap (λ (f : BufferFrame). record f { dirty = true })
          (frame_at-touch_self written_cache i there)
      ∙ ap (λ (f : BufferFrame). record f { dirty = true; last_used_tick = tick })
          (frame_at-modify_frame_self m.cache i (set_page page) inside)

  frame_other : (j : ℕ) → j ≢ i → frame_at edited.cache j ≡ frame_at m.cache j
  frame_other j ne = rw cache_edited (
      frame_at-modify_frame_ne _ i _ j ne
      ∙ frame_at-touch_ne written_cache i j ne
      ∙ frame_at-modify_frame_ne m.cache i (set_page page) j ne)

  edited-Replaced : Replaced m edited i path k page
  edited-Replaced = record {
    frame_count = rw cache_edited (
        length-modify_frame _ i _
        ∙ length-touch written_cache i
        ∙ length-modify_frame m.cache i (set_page page));
    disk = refl;
    others = λ j ne. ap key (frame_other j ne);
    others_dirty = λ j ne. ap (λ (f : BufferFrame). f.dirty) (frame_other j ne);
    own = record {
      used = ap (λ (f : BufferFrame). f.in_use) frame_edited ∙ own.used;
      id = ap (λ (f : BufferFrame). f.page_id) frame_edited ∙ own.id;
      path_is = ap (λ (f : BufferFrame). f.file_path) frame_edited ∙ own.path_is;
    };
    own_page = ap (λ (f : BufferFrame). f.page) frame_edited;
    evictable = λ p n h. inl (sym h.path_is ∙ own.path_is, sym h.id ∙ own.id);
    absent = λ j ne h. ne (s.coherent.distinct j i path k h own);
    in_limit = rw (← own.id) (s.coherent.in_limit i own.used);
    path_fits = rw (← own.path_is) (s.coherent.path_fits i own.used);
    sized = sized;
    own_clean = λ d. cc (ap (λ (f : BufferFrame). f.dirty) frame_edited);
  }

-- What a write into a page, marked dirty, leaves: that page is seen anew, all others as before.
pub record Edited (m m' : Machine) (i : ℕ) (path : FilePath) (k : ℕ) (page : DataPage)
    : Type 0 where
  pub sound : Sound m'
  pub own : Matches (frame_at m'.cache i) path k
  pub own_page : (frame_at m'.cache i).page ≡ page
  pub seen : view m' path k ≡ some page
  pub others :
      (p : FilePath) (n : ℕ) (v : DataPage)
      → ((p ≡ path) → (n ≡ k) → ⊥)
      → view m p n ≡ some v
      → view m' p n ≡ some v
  pub within : (p : FilePath) (limit : ℕ) → Within m p limit → Within m' p limit
  pub grows : (p : FilePath) → file_length m p ≡ file_length m' p

-- In a sound machine, a page that is written to through the frame that it is in, and then marked
-- dirty, is seen as it was written, all other pages are seen as before, and the machine is sound.
pub mark_dirty-Edited :
    (m : Machine) (s : Sound m) (path : FilePath) (k i : ℕ)
    (own : Matches (frame_at m.cache i) path k) (page : DataPage) (sized : IsSized page)
    → Edited m (edited m s path k i own page sized) i path k page
mark_dirty-Edited m s path k i own page sized =
    let r = edited-Replaced m s path k i own page sized in
    record {
      sound = Sound-Replaced s r;
      own = r.own;
      own_page = r.own_page;
      seen = view-Replaced s r;
      others = λ p n v ne h. view-Replaced_ne s r p n v ne h;
      within = λ p limit w.
          Within-Replaced s r p limit
            (λ e. rw (← own.id) (w.frames i own.used (own.path_is ∙ sym e))) w;
      grows = λ p. refl;
    }
