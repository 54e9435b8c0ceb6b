-- ===== src/Jihyun/Cache/FlushAll.antt =====
-- buffer_cache_flush_file and buffer_cache_flush_all write every dirty page that they are for.
use jungle_week6_coding_sess.Prelude.{
  ℕ, zero, suc, ◌+◌, ◌<◌, ◌≤◌, ◌≡◌, inl, inr, refl, sym, ap, ◌∙◌, Bool, true, false, ◌&&◌, some,
  arith, Bool-cases, if◌then◌else◌, bytes_eq, bytes_eq_refl,
}
use native.Mathlib.Decide.{ℕ_discrete}
use jungle_week6_coding_sess.Jihyun.Action.{Outcome, done}
use jungle_week6_coding_sess.Jihyun.Page.{DataPage}
use jungle_week6_coding_sess.Libc.Disk.{FilePath}
use jungle_week6_coding_sess.Jihyun.Cache.{
  BufferFrame, Machine, frame_at, flush_frame, flush_from, buffer_cache_flush_file,
  buffer_cache_flush_all, buffer_cache_capacity,
}
use jungle_week6_coding_sess.Jihyun.Cache.Stored.{stored_page}
use jungle_week6_coding_sess.Jihyun.Cache.View.{
  Matches, view, view-Matches, view-stored, Matches-cases, in_use-lt-length,
}
use jungle_week6_coding_sess.Jihyun.Cache.Steady.{
  Sound, Steady, Steady-refl, Steady-trans, SameKeys, same_used, key,
}
use jungle_week6_coding_sess.Jihyun.Cache.Flush.{flush_frame-Flushed}

SameKeys-trans : {l m n : Machine} → SameKeys l m → SameKeys m n → SameKeys l n
SameKeys-trans a b = record {
  frame_count = b.frame_count ∙ a.frame_count;
  keys = λ i. b.keys i ∙ a.keys i;
}

-- What a run of flush_frame over some frames leaves: those that were wanted are clean.
pub record FlushedFrom (wanted : BufferFrame → Bool) (first count : ℕ) (m m' : Machine)
    : Type 0 where
  pub steady : Steady m m'
  pub same : SameKeys m m'
  pub stays_clean :
      (j : ℕ) → (frame_at m.cache j).dirty ≡ false → (frame_at m'.cache j).dirty ≡ false
  pub cleaned :
      (j : ℕ)
      → first ≤ j
      → j < first + count
      → wanted (frame_at m'.cache j) ≡ true
      → (frame_at m'.cache j).in_use ≡ true
      → (frame_at m'.cache j).dirty ≡ false

module _ (wanted : BufferFrame → Bool)
    (by_key : (f g : BufferFrame) → key g ≡ key f → wanted g ≡ wanted f) where
  flush_from-cons :
      (rounds index : ℕ) (m m1 : Machine) (result : Outcome (Unit {0}) × Machine)
      → (if wanted (frame_at m.cache index) then flush_frame index m else (done tt, m))
        ≡ (done tt, m1)
      → flush_from wanted rounds (suc index) m1 ≡ result
      → flush_from wanted (suc rounds) index m ≡ result
  unfolding flush_from
  flush_from-cons rounds index m m1 result e r = rw (e, r)

  one_frame :
      (index : ℕ) (m : Machine)
      → Sound m
      → (m1 : Machine) × ((if wanted (frame_at m.cache index)
            then flush_frame index m
            else (done tt, m))
          ≡ (done tt, m1))
        × FlushedFrom wanted index 1 m m1
  one_frame index m s = elim (Bool-cases (wanted (frame_at m.cache index))) [
    | inl yes_wanted ↦
        let (m1, e, f) = flush_frame-Flushed m index s in
        (
          m1,
          rw (yes_wanted, e),
          record {
            steady = f.steady;
            same = f.same;
            stays_clean = f.stays_clean;
            cleaned = λ j a b _ u.
                let here : j ≡ index = omega arith in rw here (f.cleaned (rw here at u));
          },
        )
    | inr not_wanted ↦ (
      m,
      rw not_wanted,
      record {
        steady = Steady-refl s;
        same = record { frame_count = refl; keys = λ j. refl };
        stays_clean = λ j d. d;
        cleaned = λ j a b x u.
            let here : j ≡ index = omega arith in cc (ap (λ n. wanted (frame_at m.cache n)) here);
      },
    )
  ]

  -- With every file permitted, the loop succeeds and cleans every frame that is wanted.
  pub flush_from-FlushedFrom :
      (rounds index : ℕ) (m : Machine)
      → Sound m
      → (m' : Machine) × (flush_from wanted rounds index m ≡ (done tt, m'))
        × FlushedFrom wanted index rounds m m'
  flush_from-FlushedFrom zero index m s = (
    m,
    unfold flush_from in refl,
    record {
      steady = Steady-refl s;
      same = record { frame_count = refl; keys = λ j. refl };
      stays_clean = λ j d. d;
      cleaned = λ j a b x u. absurd (omega arith);
    },
  )
  flush_from-FlushedFrom (suc rounds) index m s =
      let (m1, e, f) = one_frame index m s in
      let (m2, r, g) = flush_from-FlushedFrom rounds (suc index) m1 f.steady.sound in
      (
        m2,
        flush_from-cons rounds index m m1 _ e r,
        record {
          steady = Steady-trans f.steady g.steady;
          same = SameKeys-trans f.same g.same;
          stays_clean = λ j d. g.stays_clean j (f.stays_clean j d);
          cleaned = λ j a b x u. elim (ℕ_discrete j index) [
            | no ne ↦ g.cleaned j (omega arith) (omega arith) x u
            | yes here ↦ g.stays_clean j (
                f.cleaned j a (omega arith) (sym (by_key _ _ (g.same.keys j)) ∙ x)
                  (sym (same_used g.same j) ∙ u))
          ];
        },
      )

-- In a sound machine flush_file succeeds, the machine is sound with every page still seen, and no
-- frame of the file is dirty.
pub flush_file-FlushedFrom :
    (path : FilePath) (m : Machine)
    → Sound m
    → (m' : Machine) × (buffer_cache_flush_file path m ≡ (done tt, m'))
      × Steady m m'
      × ((j : ℕ) (k : ℕ)
          → Matches (frame_at m'.cache j) path k
          → (frame_at m'.cache j).dirty ≡ false)
unfolding buffer_cache_flush_file
flush_file-FlushedFrom path m s =
    let (m', e, f) =
      flush_from-FlushedFrom (λ f. f.in_use && bytes_eq f.file_path path)
        (λ f g q. ap (λ (t : Bool × FilePath × ℕ × DataPage). t.0 && bytes_eq t.1 path) q)
        buffer_cache_capacity 0 m s in
    (
      m',
      e,
      f.steady,
      λ j k a.
          f.cleaned j (omega arith)
            (omega (arith, in_use-lt-length m'.cache j a.used, f.steady.sound.coherent.frame_count))
            (rw (a.used, a.path_is) (bytes_eq_refl path)) a.used,
    )

-- In a sound machine flush_all succeeds, the machine is sound with every page still seen, and the
-- files hold every page that a client saw before.
pub flush_all-stored :
    (m : Machine)
    → Sound m
    → (m' : Machine) × (buffer_cache_flush_all m ≡ (done tt, m'))
      × Steady m m'
      × ((path : FilePath) (k : ℕ) (page : DataPage)
          → view m path k ≡ some page
          → stored_page m'.disk path k ≡ some page)
unfolding buffer_cache_flush_all
flush_all-stored m s =
    let (m', e, f) =
      flush_from-FlushedFrom (λ _. true) (λ f g q. refl) buffer_cache_capacity 0 m s in
    let c = f.steady.sound.coherent in
    (
      m',
      e,
      f.steady,
      λ path k page h.
          let kept = f.steady.keeps.at path k page h in
          elim (Matches-cases m' path k) [
            | inr none_left ↦ sym (view-stored m' path k none_left) ∙ kept
            | inl (j, a) ↦
                let clean =
                  f.cleaned j (omega arith)
                    (omega (arith, in_use-lt-length m'.cache j a.used, c.frame_count)) refl
                    a.used in
                c.clean j path k a clean ∙ sym (view-Matches m' path k c j a) ∙ kept
          ],
    )
