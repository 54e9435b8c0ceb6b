-- ===== src/Jihyun/Cache/Replace.antt =====
-- Giving a frame to another page: what load_page and create_page share.
use mathlib.Core.Bool.{false≢true}
use native.Mathlib.Decide.{ℕ_discrete}
use jungle_week6_coding_sess.Prelude.{
  ℕ, ◌<◌, ◌≡◌, ◌≢◌, ◌⊎◌, inl, inr, sym, ap, subst, ◌∙◌, Bool-cases, bytes_eq, bytes_eq_iff, arith,
  Bool, true, false, some, length,
}
use jungle_week6_coding_sess.Jihyun.Page.{DataPage, page_payload_size}
use jungle_week6_coding_sess.Jihyun.Page.Image.{IsSized}
use jungle_week6_coding_sess.Libc.Disk.{FilePath}
use jungle_week6_coding_sess.Jihyun.Cache.{BufferFrame, Machine, max_path_length, frame_at}
use jungle_week6_coding_sess.Jihyun.Cache.Stored.{page_limit, stored_page, stored_page-inside}
use jungle_week6_coding_sess.Jihyun.Cache.View.{
  Matches, view, Coherent, view-Matches, view-stored, Matches-cases,
}
use jungle_week6_coding_sess.Jihyun.Cache.Steady.{
  Sound, Steady, Within, key, Matches-key, file_length,
}

-- The frame `v` of `m` is given to a page that no other frame holds. What it held before is that
-- page or was clean.
pub record Replaced (m m' : Machine) (v : ℕ) (path : FilePath) (k : ℕ) (page : DataPage)
    : Type 0 where
  pub frame_count : length m'.cache.frames ≡ length m.cache.frames
  pub disk : m'.disk ≡ m.disk
  pub others : (j : ℕ) → j ≢ v → key (frame_at m'.cache j) ≡ key (frame_at m.cache j)
  pub others_dirty : (j : ℕ) → j ≢ v → (frame_at m'.cache j).dirty ≡ (frame_at m.cache j).dirty
  pub own : Matches (frame_at m'.cache v) path k
  pub own_page : (frame_at m'.cache v).page ≡ page
  pub evictable :
      (p : FilePath) (n : ℕ)
      → Matches (frame_at m.cache v) p n
      → ((p ≡ path) × (n ≡ k)) ⊎ ((frame_at m.cache v).dirty ≡ false)
  pub absent : (j : ℕ) → j ≢ v → ¬ Matches (frame_at m.cache j) path k
  pub in_limit : k < page_limit
  pub path_fits : length path < max_path_length
  pub sized : IsSized page
  pub own_clean : (frame_at m'.cache v).dirty ≡ false → stored_page m.disk path k ≡ some page

module _ {m m' : Machine} {v : ℕ} {path : FilePath} {k : ℕ} {page : DataPage} (s : Sound m)
    (r : Replaced m m' v path k page) where
  -- A frame of the new machine is the one given away, or one from before.
  frame_cases :
      (j : ℕ) (p : FilePath) (n : ℕ)
      → Matches (frame_at m'.cache j) p n
      → ((j ≡ v) × (p ≡ path) × (n ≡ k)) ⊎ ((j ≢ v) × Matches (frame_at m.cache j) p n)
  frame_cases j p n h = elim (ℕ_discrete j v) [
    | yes e ↦
        let g = subst (λ (i : ℕ). Matches (frame_at m'.cache i) p n) e h in
        inl (e, sym g.path_is ∙ r.own.path_is, sym g.id ∙ r.own.id)
    | no ne ↦ inr (ne, Matches-key (r.others j ne) h)
  ]

  only_one :
      (i j : ℕ) (p : FilePath) (n : ℕ)
      → Matches (frame_at m'.cache i) p n
      → Matches (frame_at m'.cache j) p n
      → i ≡ j
  only_one i j p n a b = elim (frame_cases i p n a) [
    | inl (ei, ep, en) ↦ elim (frame_cases j p n b) [
      | inl (ej, _, _) ↦ ei ∙ sym ej
      | inr (other, old) ↦ absurd (r.absent j other (rw (← ep, ← en) old))
    ]
    | inr (other, old) ↦ elim (frame_cases j p n b) [
      | inl (_, ep, en) ↦ absurd (r.absent i other (rw (← ep, ← en) old))
      | inr (_, old') ↦ s.coherent.distinct i j p n old old'
    ]
  ]

  -- What holds of the new page and of the old frames holds of every frame.
  each :
      (P : BufferFrame → Type 0)
      → P (frame_at m'.cache v)
      → ((j : ℕ) → j ≢ v → P (frame_at m'.cache j))
      → (j : ℕ) → P (frame_at m'.cache j)
  each P own old j = elim (ℕ_discrete j v) [
    | yes e ↦ subst (λ (i : ℕ). P (frame_at m'.cache i)) (sym e) own
    | no ne ↦ old j ne
  ]

  used_before :
      (j : ℕ) → j ≢ v → (frame_at m'.cache j).in_use ≡ true → (frame_at m.cache j).in_use ≡ true
  used_before j ne u = sym (ap (λ (t : Bool × FilePath × ℕ × DataPage). t.0) (r.others j ne)) ∙ u

  clean_frames :
      (j : ℕ) (p : FilePath) (n : ℕ)
      → Matches (frame_at m'.cache j) p n
      → (frame_at m'.cache j).dirty ≡ false
      → stored_page m'.disk p n ≡ some (frame_at m'.cache j).page
  clean_frames j p n h d = elim (frame_cases j p n h) [
    | inl (e, ep, en) ↦
        rw (r.disk, ep, en)
          (r.own_clean (subst (λ (i : ℕ). (frame_at m'.cache i).dirty ≡ false) e d)
            ∙ ap some (sym r.own_page)
            ∙ ap (λ i. some (frame_at m'.cache i).page) (sym e))
    | inr (ne, old) ↦ rw r.disk (
        s.coherent.clean j p n old (sym (r.others_dirty j ne) ∙ d)
        ∙ ap (λ (t : Bool × FilePath × ℕ × DataPage). some t.3) (sym (r.others j ne)))
  ]

  pub Coherent-Replaced : Coherent m'
  Coherent-Replaced = record {
    frame_count = r.frame_count ∙ s.coherent.frame_count;
    distinct = only_one;
    in_limit =
        each (λ f. f.in_use ≡ true → f.page_id < page_limit) (λ _. rw r.own.id r.in_limit)
          (λ j ne u.
            rw (ap (λ (t : Bool × FilePath × ℕ × DataPage). t.2) (r.others j ne))
              (s.coherent.in_limit j (used_before j ne u)));
    path_fits =
        each (λ f. f.in_use ≡ true → length f.file_path < max_path_length)
          (λ _. rw r.own.path_is r.path_fits)
          (λ j ne u.
            rw (ap (λ (t : Bool × FilePath × ℕ × DataPage). t.1) (r.others j ne))
              (s.coherent.path_fits j (used_before j ne u)));
    sized =
        each (λ f. f.in_use ≡ true → IsSized f.page) (λ _. rw r.own_page r.sized)
          (λ j ne u.
            rw (ap (λ (t : Bool × FilePath × ℕ × DataPage). t.3) (r.others j ne))
              (s.coherent.sized j (used_before j ne u)));
    payloads =
        each (λ f. length f.page.payload ≡ page_payload_size) (rw r.own_page r.sized.payload)
          (λ j ne.
            rw (ap (λ (t : Bool × FilePath × ℕ × DataPage). t.3) (r.others j ne))
              (s.coherent.payloads j));
    clean = clean_frames;
  }

  pub Sound-Replaced : Sound m'
  Sound-Replaced = record { coherent = Coherent-Replaced; permits = rw r.disk s.permits }

  -- The new page is seen.
  pub view-Replaced : view m' path k ≡ some page
  view-Replaced = view-Matches m' path k Coherent-Replaced v r.own ∙ ap some r.own_page

  -- A page with no frame now was in the file before: it had no frame, or a clean one.
  stored_before :
      (p : FilePath) (n : ℕ) (w : DataPage)
      → ((i : ℕ) → ¬ Matches (frame_at m'.cache i) p n)
      → view m p n ≡ some w
      → stored_page m.disk p n ≡ some w
  stored_before p n w gone h = elim (Matches-cases m p n) [
    | inr none_before ↦ sym (view-stored m p n none_before) ∙ h
    | inl (j, a) ↦ elim (ℕ_discrete j v) [
      | no ne ↦ absurd (gone j (Matches-key (sym (r.others j ne)) a))
      | yes e ↦
          let b = subst (λ (i : ℕ). Matches (frame_at m.cache i) p n) e a in
          elim (r.evictable p n b) [
            | inl (ep, en) ↦ absurd (gone v (rw (ep, en) r.own))
            | inr d ↦ s.coherent.clean v p n b d ∙ sym (view-Matches m p n s.coherent v b) ∙ h
          ]
    ]
  ]

  pub key_cases : (p : FilePath) (n : ℕ) → ((p ≡ path) × (n ≡ k)) ⊎ ((p ≡ path) → (n ≡ k) → ⊥)
  key_cases p n = elim (Bool-cases (bytes_eq p path)) [
    | inr e ↦ inr (λ q _. false≢true (sym e ∙ (bytes_eq_iff p path).1 q))
    | inl e ↦ elim (ℕ_discrete n k) [
      | yes q ↦ inl ((bytes_eq_iff p path).0 e, q)
      | no ne ↦ inr (λ _ q. ne q)
    ]
  ]

  -- Every other page is seen as before: the page that lost its frame was clean.
  pub view-Replaced_ne :
      (p : FilePath) (n : ℕ) (w : DataPage)
      → ((p ≡ path) → (n ≡ k) → ⊥)
      → view m p n ≡ some w
      → view m' p n ≡ some w
  view-Replaced_ne p n w ne h = elim (Matches-cases m' p n) [
    | inl (j, a) ↦ elim (frame_cases j p n a) [
      | inl (_, ep, en) ↦ absurd (ne ep en)
      | inr (old_ne, old) ↦
          view-Matches m' p n Coherent-Replaced j a
          ∙ ap (λ (t : Bool × FilePath × ℕ × DataPage). some t.3) (r.others j old_ne)
          ∙ sym (view-Matches m p n s.coherent j old)
          ∙ h
    ]
    | inr gone ↦
        view-stored m' p n gone ∙ ap (λ d. stored_page d p n) r.disk ∙ stored_before p n w gone h
  ]

  pub Within-Replaced :
      (p : FilePath) (limit : ℕ) → ((p ≡ path) → k < limit) → Within m p limit → Within m' p limit
  Within-Replaced p limit below w = record {
    pages = w.pages;
    whole = rw r.disk w.whole;
    at_most = w.at_most;
    frames =
        each (λ f. f.in_use ≡ true → f.file_path ≡ p → f.page_id < limit)
          (λ _ e. rw r.own.id (below (sym e ∙ r.own.path_is)))
          (λ j ne u e. rw (ap (λ (t : Bool × FilePath × ℕ × DataPage). t.2) (r.others j ne)) (
            w.frames j (used_before j ne u)
              (sym (ap (λ (t : Bool × FilePath × ℕ × DataPage). t.1) (r.others j ne)) ∙ e)));
  }

  -- Where the file has the page that the frame gets, nothing changes for a client.
  pub Steady-Replaced :
      view m path k ≡ some page → stored_page m.disk path k ≡ some page → Steady m m'
  Steady-Replaced seen stored = record {
    sound = Sound-Replaced;
    keeps = record {
      at = λ p n w h. elim (key_cases p n) [
        | inr ne ↦ view-Replaced_ne p n w ne h
        | inl (ep, en) ↦ rw (ep, en) (view-Replaced ∙ sym seen ∙ rw (ep, en) at h)
      ];
    };
    within = λ p limit w.
        Within-Replaced p limit
          (λ e. omega (
            arith,
            stored_page-inside m.disk path k page stored,
            w.whole,
            ap (file_length m) e,
            w.at_most,
          ))
          w;
    grows = λ p. rw r.disk (omega arith);
  }
