-- ===== src/Jihyun/Cache/Start.antt =====
-- buffer_cache_init: the cache from which the program starts.
use jungle_week6_coding_sess.Prelude.{
  ℕ, zero, suc, ◌≡◌, refl, ap, ◌∙◌, replicate, length-replicate, get_or, false,
}
use jungle_week6_coding_sess.Jihyun.Page.{page_payload_size, zero_page}
use jungle_week6_coding_sess.Libc.Disk.{Disk}
use jungle_week6_coding_sess.Jihyun.Cache.{
  BufferFrame, Machine, buffer_cache_capacity, zero_frame, buffer_cache_init, frame_at,
}
use jungle_week6_coding_sess.Jihyun.Cache.Steady.{Permits, Sound}

get_or-replicate : (n i : ℕ) (f : BufferFrame) → get_or (replicate n f) i f ≡ f
unfolding replicate
get_or-replicate zero i f = refl
get_or-replicate (suc n) zero f = refl
get_or-replicate (suc n) (suc i) f = get_or-replicate n i f

pub frame_at-buffer_cache_init : (i : ℕ) → frame_at buffer_cache_init i ≡ zero_frame
unfolding frame_at buffer_cache_init
frame_at-buffer_cache_init i = get_or-replicate buffer_cache_capacity i zero_frame

pub unused_at_first : (i : ℕ) → (frame_at buffer_cache_init i).in_use ≡ false
unused_at_first i =
    ap (λ (f : BufferFrame). f.in_use) (frame_at-buffer_cache_init i) ∙ (unfold zero_frame in refl)

-- The machine of a program that starts on these files.
abbrev pub started : Disk → Machine
started disk = record { cache = buffer_cache_init; disk = disk }

-- If every file may be read and written, the machine is sound when the program starts, whatever
-- the files hold.
pub buffer_cache_init-Sound : (disk : Disk) → Permits disk → Sound (started disk)
buffer_cache_init-Sound disk permits = record {
  coherent = record {
    frame_count = unfold buffer_cache_init in length-replicate buffer_cache_capacity zero_frame;
    distinct = λ i j path k a b. cc (unused_at_first i, a.used);
    in_limit = λ i u. cc (unused_at_first i);
    path_fits = λ i u. cc (unused_at_first i);
    sized = λ i u. cc (unused_at_first i);
    payloads = λ i.
        rw (frame_at-buffer_cache_init i)
          (unfold zero_frame zero_page in length-replicate page_payload_size 0);
    clean = λ i path k a d. cc (unused_at_first i, a.used);
  };
  permits = permits;
}
