-- ===== src/Jihyun/Cache/View.antt =====
-- What the cache and the files show together, and when they agree.
use jungle_week6_coding_sess.Prelude.{
  ℕ, zero, suc, ◌<◌, ◌≡◌, ◌⊎◌, inl, inr, ap, true, false, Option, none, some, List, [], ◌∷◌, arith,
  length, get_or, bytes_eq_iff, Option-cases,
}
use jungle_week6_coding_sess.Jihyun.Page.{DataPage, page_payload_size}
use jungle_week6_coding_sess.Jihyun.Page.Image.{IsSized}
use jungle_week6_coding_sess.Libc.Disk.{FilePath}
use jungle_week6_coding_sess.Jihyun.Cache.{
  BufferFrame, BufferCache, Machine, buffer_cache_capacity, max_path_length, zero_frame, frame_at,
  frame_matches, find_index,
}
use jungle_week6_coding_sess.Jihyun.Cache.Stored.{page_limit, stored_page}

-- The frame holds that page.
pub record Matches (f : BufferFrame) (path : FilePath) (page_id : ℕ) : Type 0 where
  pub used : f.in_use ≡ true
  pub id : f.page_id ≡ page_id
  pub path_is : f.file_path ≡ path

pub frame_matches→Matches :
    (f : BufferFrame) (path : FilePath) (k : ℕ) → frame_matches f path k ≡ true → Matches f path k
unfolding frame_matches
frame_matches→Matches f path k h = ground (arith, bytes_eq_iff f.file_path path)

pub Matches→frame_matches :
    (f : BufferFrame) (path : FilePath) (k : ℕ) → Matches f path k → frame_matches f path k ≡ true
unfolding frame_matches
Matches→frame_matches f path k h = ground (arith, bytes_eq_iff f.file_path path)

find_index-eq-some :
    (path : FilePath) (k : ℕ) (frames : List BufferFrame) (d : BufferFrame) (i : ℕ)
    → find_index path k frames ≡ some i
    → (i < length frames) × Matches (get_or frames i d) path k
unfolding find_index
find_index-eq-some path k [] d i h = cc
find_index-eq-some path k (f ∷ frames) d zero h =
    (omega arith, frame_matches→Matches f path k (ground arith))
find_index-eq-some path k (f ∷ frames) d (suc i) h =
    let (inside, found) = find_index-eq-some path k frames d i (ground arith) in
    (omega arith, found)

find_index-eq-none :
    (path : FilePath) (k : ℕ) (frames : List BufferFrame) (d : BufferFrame) (i : ℕ)
    → find_index path k frames ≡ none
    → i < length frames
    → ¬ Matches (get_or frames i d) path k
unfolding find_index
find_index-eq-none path k [] d i h l = absurd (omega arith)
find_index-eq-none path k (f ∷ frames) d zero h l =
    λ m. ground (arith, Matches→frame_matches f path k m)
find_index-eq-none path k (f ∷ frames) d (suc i) h l =
    find_index-eq-none path k frames d i (ground arith) (omega arith)

abbrev pub shown : Machine → Option ℕ → Option DataPage → Option DataPage
shown m none stored = stored
shown m (some index) stored = some (frame_at m.cache index).page

-- The page that a client of the cache sees: the frame's, or else the one in the file.
unfoldable pub view : Machine → FilePath → ℕ → Option DataPage
view m path k = shown m (find_index path k m.cache.frames) (stored_page m.disk path k)

-- Every page has one frame at most, a clean frame holds what its file holds, and the frames are
-- within the bounds of the types and of the files.
pub record Coherent (m : Machine) : Type 0 where
  pub frame_count : length m.cache.frames ≡ buffer_cache_capacity
  pub distinct :
      (i j : ℕ) (path : FilePath) (k : ℕ)
      → Matches (frame_at m.cache i) path k
      → Matches (frame_at m.cache j) path k
      → i ≡ j
  pub in_limit :
      (i : ℕ) → (frame_at m.cache i).in_use ≡ true → (frame_at m.cache i).page_id < page_limit
  pub path_fits :
      (i : ℕ)
      → (frame_at m.cache i).in_use ≡ true
      → length (frame_at m.cache i).file_path < max_path_length
  pub sized : (i : ℕ) → (frame_at m.cache i).in_use ≡ true → IsSized (frame_at m.cache i).page
  pub payloads : (i : ℕ) → length (frame_at m.cache i).page.payload ≡ page_payload_size
  pub clean :
      (i : ℕ) (path : FilePath) (k : ℕ)
      → Matches (frame_at m.cache i) path k
      → (frame_at m.cache i).dirty ≡ false
      → stored_page m.disk path k ≡ some (frame_at m.cache i).page

get_or-in_use :
    (frames : List BufferFrame) (i : ℕ)
    → (get_or frames i zero_frame).in_use ≡ true
    → i < length frames
unfolding zero_frame
get_or-in_use [] i e = cc
get_or-in_use (f ∷ frames) zero e = omega arith
get_or-in_use (f ∷ frames) (suc i) e = omega (arith, get_or-in_use frames i e)

-- A frame in use is one of the frames.
pub in_use-lt-length :
    (cache : BufferCache) (i : ℕ) → (frame_at cache i).in_use ≡ true → i < length cache.frames
unfolding frame_at
in_use-lt-length cache i h = get_or-in_use cache.frames i h

module _ (m : Machine) (path : FilePath) (k : ℕ) where
  pub found :
      (i : ℕ)
      → find_index path k m.cache.frames ≡ some i
      → (i < length m.cache.frames) × Matches (frame_at m.cache i) path k
  unfolding frame_at
  found i e = find_index-eq-some path k m.cache.frames zero_frame i e

  pub not_found :
      (i : ℕ) → find_index path k m.cache.frames ≡ none → ¬ Matches (frame_at m.cache i) path k
  not_found i e h =
      let inside = in_use-lt-length m.cache i h.used in
      unfold frame_at in find_index-eq-none path k m.cache.frames zero_frame i e inside h

  pub view-Matches :
      Coherent m
      → (i : ℕ) → Matches (frame_at m.cache i) path k
      → view m path k ≡ some (frame_at m.cache i).page
  unfolding view
  view-Matches c i h = elim (Option-cases (find_index path k m.cache.frames)) [
    | inl e ↦ absurd (not_found i e h)
    | inr (j, e) ↦
        rw e (ap (λ n. some (frame_at m.cache n).page) (c.distinct j i path k (found j e).1 h))
  ]

  pub view-stored :
      ((i : ℕ) → ¬ Matches (frame_at m.cache i) path k) → view m path k ≡ stored_page m.disk path k
  unfolding view
  view-stored h = elim (Option-cases (find_index path k m.cache.frames)) [
    | inl e ↦ rw e
    | inr (j, e) ↦ absurd (h j (found j e).1)
  ]

  -- A page is in a frame, or else in no frame.
  pub Matches-cases :
      ((i : ℕ) × Matches (frame_at m.cache i) path k)
      ⊎ ((i : ℕ) → ¬ Matches (frame_at m.cache i) path k)
  Matches-cases = elim (Option-cases (find_index path k m.cache.frames)) [
    | inl e ↦ inr (λ i. not_found i e)
    | inr (j, e) ↦ inl (j, (found j e).1)
  ]

-- Every page that was seen is still seen.
pub record Keeps (m m' : Machine) : Type 0 where
  pub at :
      (path : FilePath) (k : ℕ) (v : DataPage) → view m path k ≡ some v → view m' path k ≡ some v

pub Keeps-refl : (m : Machine) → Keeps m m
Keeps-refl m = record { at = λ path k v h. h }

pub Keeps-trans : {l m n : Machine} → Keeps l m → Keeps m n → Keeps l n
Keeps-trans a b = record { at = λ path k v h. b.at path k v (a.at path k v h) }
