-- ===== src/Jihyun/Cache/Frames.antt =====
-- Reading and writing frames by index.
use jungle_week6_coding_sess.Prelude.{
  ℕ, zero, suc, ◌<◌, ◌≡◌, ◌≢◌, refl, ap, List, [], ◌∷◌, arith, length, get_or, ◌∙◌, ◌+◌, ◌%◌, true,
  false, take, take_all,
}
use jungle_week6_coding_sess.Prelude.Words.{u64_mod}
use jungle_week6_coding_sess.Libc.Disk.{FilePath}
use jungle_week6_coding_sess.Jihyun.Cache.{
  BufferFrame, BufferCache, zero_frame, modify_at, modify_frame, frame_at, touch, assign_frame,
  max_path_length,
}

pub length-modify_at :
    (i : ℕ) (f : BufferFrame → BufferFrame) (frames : List BufferFrame)
    → length (modify_at i f frames) ≡ length frames
unfolding modify_at
length-modify_at i f [] = refl
length-modify_at zero f (x ∷ frames) = refl
length-modify_at (suc i) f (x ∷ frames) = ap suc (length-modify_at i f frames)

get_or-modify_at_self :
    (i : ℕ) (f : BufferFrame → BufferFrame) (frames : List BufferFrame) (d : BufferFrame)
    → i < length frames
    → get_or (modify_at i f frames) i d ≡ f (get_or frames i d)
unfolding modify_at
get_or-modify_at_self i f [] d h = absurd (omega arith)
get_or-modify_at_self zero f (x ∷ frames) d h = refl
get_or-modify_at_self (suc i) f (x ∷ frames) d h = get_or-modify_at_self i f frames d (omega arith)

get_or-modify_at_ne :
    (i j : ℕ) (f : BufferFrame → BufferFrame) (frames : List BufferFrame) (d : BufferFrame)
    → j ≢ i
    → get_or (modify_at i f frames) j d ≡ get_or frames j d
unfolding modify_at
get_or-modify_at_ne i j f [] d h = refl
get_or-modify_at_ne zero zero f (x ∷ frames) d h = absurd (h refl)
get_or-modify_at_ne zero (suc j) f (x ∷ frames) d h = refl
get_or-modify_at_ne (suc i) zero f (x ∷ frames) d h = refl
get_or-modify_at_ne (suc i) (suc j) f (x ∷ frames) d h =
    get_or-modify_at_ne i j f frames d (λ e. h (ap suc e))

-- What a write keeps of a frame, it keeps of every frame.
get_or-modify_at_keeps :
    {B : Type 0} (g : BufferFrame → B) (i j : ℕ) (f : BufferFrame → BufferFrame)
    (frames : List BufferFrame) (d : BufferFrame)
    → ((x : BufferFrame) → g (f x) ≡ g x)
    → g (get_or (modify_at i f frames) j d) ≡ g (get_or frames j d)
unfolding modify_at
get_or-modify_at_keeps g i j f [] d h = refl
get_or-modify_at_keeps g zero zero f (x ∷ frames) d h = h x
get_or-modify_at_keeps g zero (suc j) f (x ∷ frames) d h = refl
get_or-modify_at_keeps g (suc i) zero f (x ∷ frames) d h = refl
get_or-modify_at_keeps g (suc i) (suc j) f (x ∷ frames) d h =
    get_or-modify_at_keeps g i j f frames d h

module _ (cache : BufferCache) (i : ℕ) (f : BufferFrame → BufferFrame) where
  pub frame_at-modify_frame_self :
      i < length cache.frames → frame_at (modify_frame i f cache) i ≡ f (frame_at cache i)
  unfolding frame_at modify_frame
  frame_at-modify_frame_self h = get_or-modify_at_self i f cache.frames zero_frame h

  pub frame_at-modify_frame_ne :
      (j : ℕ) → j ≢ i → frame_at (modify_frame i f cache) j ≡ frame_at cache j
  unfolding frame_at modify_frame
  frame_at-modify_frame_ne j h = get_or-modify_at_ne i j f cache.frames zero_frame h

  pub frame_at-modify_frame_keeps :
      {B : Type 0} (g : BufferFrame → B) (j : ℕ)
      → ((x : BufferFrame) → g (f x) ≡ g x)
      → g (frame_at (modify_frame i f cache) j) ≡ g (frame_at cache j)
  unfolding frame_at modify_frame
  frame_at-modify_frame_keeps g j h = get_or-modify_at_keeps g i j f cache.frames zero_frame h

  pub length-modify_frame : length (modify_frame i f cache).frames ≡ length cache.frames
  unfolding modify_frame
  length-modify_frame = length-modify_at i f cache.frames

module _ (cache : BufferCache) (i : ℕ) where
  pub frame_at-touch_self :
      i < length cache.frames
      → frame_at (touch i cache) i
        ≡ record (frame_at cache i) { last_used_tick = (cache.tick + 1) % u64_mod }
  unfolding touch frame_at
  frame_at-touch_self h = frame_at-modify_frame_self _ i _ h

  pub frame_at-touch_ne : (j : ℕ) → j ≢ i → frame_at (touch i cache) j ≡ frame_at cache j
  unfolding touch frame_at
  frame_at-touch_ne j ne = frame_at-modify_frame_ne _ i _ j ne

  pub length-touch : length (touch i cache).frames ≡ length cache.frames
  unfolding touch
  length-touch = length-modify_frame _ i _

module _ (cache : BufferCache) (i : ℕ) where
  -- The frame given away, with its page left.
  pub frame_at-assign_frame_self :
      (path : FilePath) (k : ℕ)
      → i < length cache.frames
      → length path < max_path_length
      → frame_at (assign_frame i path k cache) i ≡ record {
        in_use = true;
        dirty = false;
        last_used_tick = (cache.tick + 1) % u64_mod;
        file_path = path;
        page_id = k;
        page = (frame_at cache i).page;
      }
  unfolding assign_frame modify_frame
  frame_at-assign_frame_self path k h fits =
      let tick = (cache.tick + 1) % u64_mod in
      let given : BufferFrame → BufferFrame =
        λ f. record f { in_use = true; dirty = false; page_id = k; file_path = take 511 path } in
      let c = modify_frame i given cache in
      frame_at-touch_self c i (rw (length-modify_frame cache i given) h)
      ∙ ap (λ (f : BufferFrame). record f { last_used_tick = tick })
          (frame_at-modify_frame_self cache i given h)
      ∙ ap
          (λ (p : FilePath). record (frame_at cache i) {
            in_use = true;
            dirty = false;
            last_used_tick = tick;
            file_path = p;
            page_id = k;
          })
          (take_all 511 path (omega arith))

  pub frame_at-assign_frame_ne :
      (path : FilePath) (k j : ℕ)
      → j ≢ i
      → frame_at (assign_frame i path k cache) j ≡ frame_at cache j
  unfolding assign_frame
  frame_at-assign_frame_ne path k j ne =
      frame_at-touch_ne _ i j ne ∙ frame_at-modify_frame_ne cache i _ j ne

  pub length-assign_frame :
      (path : FilePath) (k : ℕ) → length (assign_frame i path k cache).frames ≡ length cache.frames
  unfolding assign_frame
  length-assign_frame path k = length-touch _ i ∙ length-modify_frame cache i _

modify_at-cong :
    (i : ℕ) (f g : BufferFrame → BufferFrame) (frames : List BufferFrame) (d : BufferFrame)
    → f (get_or frames i d) ≡ g (get_or frames i d)
    → modify_at i f frames ≡ modify_at i g frames
unfolding modify_at
modify_at-cong i f g [] d e = refl
modify_at-cong zero f g (x ∷ frames) d e = ap (λ y. y ∷ frames) e
modify_at-cong (suc i) f g (x ∷ frames) d e = ap (◌∷◌ x) (modify_at-cong i f g frames d e)

-- A write depends on what stands in the frame alone.
pub modify_frame-cong :
    (cache : BufferCache) (i : ℕ) (f g : BufferFrame → BufferFrame)
    → f (frame_at cache i) ≡ g (frame_at cache i)
    → modify_frame i f cache ≡ modify_frame i g cache
unfolding modify_frame frame_at
modify_frame-cong cache i f g e =
    ap (λ frames. record cache { frames = frames }) (modify_at-cong i f g cache.frames zero_frame e)
