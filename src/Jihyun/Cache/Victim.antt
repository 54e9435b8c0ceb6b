-- ===== src/Jihyun/Cache/Victim.antt =====
-- choose_victim: a frame that is free, or the least recently used one, flushed.
use jungle_week6_coding_sess.Prelude.{
  ℕ, zero, suc, ◌<◌, ◌≡◌, inl, inr, refl, true, false, some, none, List, [], ◌∷◌, arith, length,
  get_or, Option-cases, Bool-cases, ◌+◌, ◌≤◌, ltb, ltb→lt, not_ltb→le, sym, ap, subst, ◌∙◌,
}
use mathlib.Core.Bool.{false≢true}
use native.Mathlib.Nat.{add-zero, zero-add}
use jungle_week6_coding_sess.Jihyun.Action.{done}
use jungle_week6_coding_sess.Jihyun.Cache.{
  BufferFrame, Machine, zero_frame, frame_at, free_index, oldest_from, oldest, choose_victim,
}
use jungle_week6_coding_sess.Jihyun.Cache.Steady.{Sound, Steady, Steady-refl, SameKeys}
use jungle_week6_coding_sess.Jihyun.Cache.Flush.{flush_frame-Flushed}

free_index-eq-some :
    (frames : List BufferFrame) (i : ℕ) (d : BufferFrame)
    → free_index frames ≡ some i
    → (i < length frames) × ((get_or frames i d).in_use ≡ false)
unfolding free_index
free_index-eq-some [] i d h = cc
free_index-eq-some (f ∷ frames) zero d h = (omega arith, ground arith)
free_index-eq-some (f ∷ frames) (suc i) d h =
    let (inside, free) = free_index-eq-some frames i d (ground arith) in (omega arith, free)

free_index-eq-none :
    (frames : List BufferFrame) (i : ℕ) (d : BufferFrame)
    → free_index frames ≡ none
    → i < length frames
    → (get_or frames i d).in_use ≡ true
unfolding free_index
free_index-eq-none [] i d h l = absurd (omega arith)
free_index-eq-none (f ∷ frames) zero d h l = ground arith
free_index-eq-none (f ∷ frames) (suc i) d h l =
    free_index-eq-none frames i d (ground arith) (omega arith)

-- The victim after the loop: the one so far, or one of the later frames that is older.
oldest_from-bounds :
    (frames : List BufferFrame) (victim used index : ℕ)
    → victim < index
    → oldest_from victim used index frames < index + length frames
unfolding oldest_from
oldest_from-bounds [] victim used index h = omega arith
oldest_from-bounds (f ∷ frames) victim used index h = ground (
  arith,
  oldest_from-bounds frames index f.last_used_tick (suc index),
  oldest_from-bounds frames victim used (suc index),
)

pub oldest-lt-length :
    (frames : List BufferFrame) → 0 < length frames → oldest frames < length frames
unfolding oldest
oldest-lt-length [] h = omega arith
oldest-lt-length (f ∷ frames) h =
    omega (arith, oldest_from-bounds frames 0 f.last_used_tick 1 (omega arith))

shift : (index j : ℕ) → index + suc j ≡ suc index + j
shift index j = omega arith

-- From the frames behind `index` to those from `index` on.
cases :
    (t : ℕ → ℕ) (index : ℕ) (frames : List BufferFrame) (r : ℕ)
    → t r ≤ t index
    → ((j : ℕ) → j < length frames → t r ≤ t (suc index + j))
    → (j : ℕ) → j < suc (length frames)
    → t r ≤ t (index + j)
cases t index frames r h later zero l = subst (λ n. t r ≤ t n) (sym (add-zero index)) h
cases t index frames r h later (suc j) l =
    subst (λ n. t r ≤ t n) (sym (shift index j)) (later j (omega arith))

-- The victim after the loop was used no later than the one before it and the frames of the loop;
-- `t` is the tick of each frame.
oldest_from-le :
    (t : ℕ → ℕ) (frames : List BufferFrame) (victim used index : ℕ)
    → t victim ≡ used
    → ((j : ℕ) → j < length frames → t (index + j) ≡ (get_or frames j zero_frame).last_used_tick)
    → (t (oldest_from victim used index frames) ≤ used)
      × ((j : ℕ) → j < length frames → t (oldest_from victim used index frames) ≤ t (index + j))
unfolding oldest_from
oldest_from-le t [] victim used index h at = (omega (arith, h), λ j l. absurd (omega arith))
oldest_from-le t (f ∷ frames) victim used index h at =
    let here : t index ≡ f.last_used_tick =
      subst (λ n. t n ≡ f.last_used_tick) (add-zero index) (at 0 (omega arith)) in
    let behind : (j : ℕ)
        → j < length frames
        → t (suc index + j) ≡ (get_or frames j zero_frame).last_used_tick =
      λ j l.
        subst (λ n. t n ≡ (get_or frames j zero_frame).last_used_tick) (shift index j)
          (at (suc j) (omega arith)) in
    elim (Bool-cases (ltb f.last_used_tick used)) [
      | inl older ↦
          let (le, later) =
            oldest_from-le t frames index f.last_used_tick (suc index) here behind in
          rw older (
            omega (arith, le, ltb→lt _ _ older),
            cases t index frames _ (omega (arith, le, here)) later,
          )
      | inr newer ↦
          let (le, later) = oldest_from-le t frames victim used (suc index) h behind in
          rw newer
            (le, cases t index frames _ (omega (arith, le, here, not_ltb→le _ _ newer)) later)
    ]

-- The frame that the second loop settles on was used no later than any other.
pub oldest-le :
    (frames : List BufferFrame) (j : ℕ)
    → j < length frames
    → (get_or frames (oldest frames) zero_frame).last_used_tick
      ≤ (get_or frames j zero_frame).last_used_tick
unfolding oldest
oldest-le [] j l = absurd (omega arith)
oldest-le (f ∷ frames) j l =
    let t : ℕ → ℕ = λ i. (get_or (f ∷ frames) i zero_frame).last_used_tick in
    let behind : (i : ℕ)
        → i < length frames
        → t (1 + i) ≡ (get_or frames i zero_frame).last_used_tick =
      λ i h. let shift : 1 + i ≡ suc i = omega arith in ap t shift in
    let (le, later) = oldest_from-le t frames 0 f.last_used_tick 1 refl behind in
    subst (λ n. t (oldest_from 0 f.last_used_tick 1 frames) ≤ t n) (zero-add j)
      (cases t 0 frames (oldest_from 0 f.last_used_tick 1 frames) le later j l)

-- What choose_victim leaves: a frame that may be given away, and otherwise the same frames.
pub record Chosen (m m' : Machine) (v : ℕ) : Type 0 where
  pub inside : v < length m'.cache.frames
  pub steady : Steady m m'
  pub same : SameKeys m m'
  pub evictable : (frame_at m'.cache v).in_use ≡ true → (frame_at m'.cache v).dirty ≡ false

-- In a sound machine choose_victim succeeds with a frame that is free or clean, the machine is
-- sound with every page still seen, and every frame is for the same page as before.
pub choose_victim-Chosen :
    (m : Machine)
    → Sound m
    → (m' : Machine) × (v : ℕ) × (choose_victim m ≡ (done v, m')) × Chosen m m' v
unfolding choose_victim
choose_victim-Chosen m s = elim (Option-cases (free_index m.cache.frames)) [
  | inl full ↦
      let v = oldest m.cache.frames in
      let (m', e, f) = flush_frame-Flushed m v s in
      (
        m',
        v,
        rw (full, e),
        record {
          inside =
              rw f.same.frame_count
                (oldest-lt-length m.cache.frames (omega (arith, s.coherent.frame_count)));
          steady = f.steady;
          same = f.same;
          evictable = f.cleaned;
        },
      )
  | inr (v, e) ↦
      let (inside, free) = free_index-eq-some m.cache.frames v zero_frame e in
      (
        m,
        v,
        rw e,
        record {
          inside = inside;
          steady = Steady-refl s;
          same = record { frame_count = refl; keys = λ i. refl };
          evictable = unfold frame_at in λ u. cc;
        },
      )
]

-- In a sound machine without a free frame, choose_victim succeeds with a frame that was used no
-- later than any other.
pub choose_victim-oldest :
    (m : Machine)
    → Sound m
    → ((j : ℕ) → j < length m.cache.frames → (frame_at m.cache j).in_use ≡ true)
    → (m' : Machine) × (v : ℕ) × (choose_victim m ≡ (done v, m'))
      × ((j : ℕ)
          → j < length m.cache.frames
          → (frame_at m.cache v).last_used_tick ≤ (frame_at m.cache j).last_used_tick)
unfolding choose_victim frame_at
choose_victim-oldest m s used = elim (Option-cases (free_index m.cache.frames)) [
  | inl full ↦
      let v = oldest m.cache.frames in
      let (m', e, f) = flush_frame-Flushed m v s in
      (m', v, rw (full, e) refl, λ j l. oldest-le m.cache.frames j l)
  | inr (i, e) ↦
      let (inside, free) = free_index-eq-some m.cache.frames i zero_frame e in
      absurd (false≢true (sym free ∙ used i inside))
]
