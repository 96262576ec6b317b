-- ===== src/Memory/Paging/Find.antt =====
-- `findMultiplePages` finds the first free run of pages at or behind its search start, and finds
-- one wherever there is one.
use honey_os.Base.{
  ℕ, zero, suc, ◌+◌, ◌-◌, ◌*◌, ◌/◌, ◌%◌, ◌≤◌, ◌<◌, ◌≡◌, refl, ap, ◌∙◌, true, Option, none, some,
  ◌==◌, arith, Bool-cases, inl, inr,
}
use honey_os.Base.Word.{ones, test_bit, test_bit-ones}
use honey_os.Memory.Paging.{
  PagingInfo, probe_run, Search, fine_loop, coarse_loop, very_coarse_loop, find_multiple_pages,
}
use honey_os.Memory.Paging.Bitmap.{is_allocated, is_full, IsExact}
use honey_os.Memory.Paging.Run.{
  IsFree, NoneIn, FirstFit, FirstFit-join, probe_run-Probed, not-IsFree_of_taken,
  not-IsFree_of_beyond, IsFree-of_vacant, Probe-cases, Search-cases,
}

module _ (info : PagingInfo) (size : ℕ) (pos : 0 < size) where
  NoneIn-one :
      (lo hi : ℕ) (s : Search)
      → lo < hi
      → ¬ IsFree info size lo
      → FirstFit info size (lo + 1) hi s
      → FirstFit info size lo hi s
  NoneIn-one lo hi s h busy rest =
      FirstFit-join info size lo (lo + 1) hi s (omega arith)
        (λ q k l f. let e : q ≡ lo = omega arith in busy (rw e at f)) rest

  fine_loop-FirstFit :
      (cp fine n : ℕ)
      → fine + n ≡ 32
      → FirstFit info size (cp * 32 + fine) (cp * 32 + 32) (fine_loop info size cp fine n)
  unfolding fine_loop
  fine_loop-FirstFit cp fine zero e = λ q h k f. absurd (omega arith)
  fine_loop-FirstFit cp fine (suc n) e =
      let probed = probe_run-Probed info cp fine 0 size size (omega arith) in
      let lo = cp * 32 + fine in
      elim (Probe-cases (probe_run info cp fine 0 size)) [
        | inl h ↦
            rw (h, FirstFit)
              (
                omega arith,
                IsFree-of_vacant info lo size pos (rw h at probed),
                λ q l m f. absurd (omega arith),
              )
        | inr (inl h) ↦
            let e' : cp * 32 + (fine + 1) ≡ lo + 1 = omega arith in
            let rest = fine_loop-FirstFit cp (fine + 1) n (omega arith) in
            rw (h, FirstFit)
              (NoneIn-one lo (cp * 32 + 32) (fine_loop info size cp (fine + 1) n) (omega arith)
                (not-IsFree_of_taken info lo size (rw h at probed)) (rw e' at rest))
        | inr (inr h) ↦
            rw (h, FirstFit) (λ q l m. not-IsFree_of_beyond info lo size (rw h at probed) q l)
      ]

  -- A page of a full word starts no free run.
  full-NoneIn : (c : ℕ) → info.is_page_allocated c ≡ ones → NoneIn info size (c * 32) (c * 32 + 32)
  unfolding is_allocated
  full-NoneIn c full q h k f =
      let e : (q + 0) / 32 ≡ c = omega arith in
      let first = f.clear 0 pos in
      ground (arith, rw (e, full) at first, test_bit-ones ((q + 0) % 32) (omega arith))

  module _ (v : IsExact info) where
    full-of-coarse : (c : ℕ) → is_full info c ≡ true → info.is_page_allocated c ≡ ones
    full-of-coarse c h = ground (arith, v.exact c)

    coarse_test :
        (vc coarse : ℕ)
        → coarse < 32
        → is_full info (vc * 32 + coarse) ≡ test_bit (info.is_page_allocated_coarse vc) coarse
    unfolding is_full
    coarse_test vc coarse h =
        let word : (vc * 32 + coarse) / 32 ≡ vc = omega arith in
        let place : (vc * 32 + coarse) % 32 ≡ coarse = omega arith in rw (word, place) refl

    -- What one round of the loop over `coarse` adds to the later ones.
    coarse_round :
        (vc coarse : ℕ) (s : Search)
        → coarse < 32
        → NoneIn info size ((vc * 32 + coarse) * 32) ((vc * 32 + coarse) * 32 + 32)
        → FirstFit info size (vc * 1024 + (coarse + 1) * 32) (vc * 1024 + 1024) s
        → FirstFit info size (vc * 1024 + coarse * 32) (vc * 1024 + 1024) s
    coarse_round vc coarse s h skip rest =
        FirstFit-join info size (vc * 1024 + coarse * 32) (vc * 1024 + (coarse + 1) * 32)
          (vc * 1024 + 1024) s (omega arith) (λ q k l. skip q (omega arith) (omega arith)) rest

    coarse_loop-FirstFit :
        (vc coarse n : ℕ)
        → coarse + n ≡ 32
        → FirstFit info size
            (vc * 1024 + coarse * 32)
            (vc * 1024 + 1024)
            (coarse_loop info size vc coarse n)
    unfolding coarse_loop
    coarse_loop-FirstFit vc coarse zero e = λ q h k f. absurd (omega arith)
    coarse_loop-FirstFit vc coarse (suc n) e =
        let cp = vc * 32 + coarse in
        let rest = coarse_loop-FirstFit vc (coarse + 1) n (omega arith) in
        let block = fine_loop-FirstFit cp 0 32 refl in
        let lo : cp * 32 + 0 ≡ vc * 1024 + coarse * 32 = omega arith in
        let test = coarse_test vc coarse (omega arith) in
        elim (Bool-cases (test_bit (info.is_page_allocated_coarse vc) coarse)) [
          | inl set ↦
              rw (set, FirstFit)
                (coarse_round vc coarse (coarse_loop info size vc (coarse + 1) n) (omega arith)
                  (full-NoneIn cp (full-of-coarse cp (test ∙ set))) rest)
          | inr clear ↦ elim (Search-cases (fine_loop info size cp 0 32)) [
            | inl (p, h) ↦ rw (clear, h, FirstFit) (rw lo at (rw h at block))
            | inr (inl h) ↦
                rw (clear, h, FirstFit)
                  (coarse_round vc coarse (coarse_loop info size vc (coarse + 1) n) (omega arith)
                    (λ q k l. (rw h at block) q (omega arith) l) rest)
            | inr (inr h) ↦ rw (clear, h, FirstFit) (rw lo at (rw h at block))
          ]
        ]

    -- A full coarse word stands for 1024 allocated pages.
    very_full-NoneIn :
        (vc : ℕ)
        → info.is_page_allocated_coarse vc ≡ ones
        → NoneIn info size (vc * 1024) (vc * 1024 + 1024)
    very_full-NoneIn vc h q k l =
        let c = q / 32 in
        let set : is_full info (vc * 32 + (c - vc * 32)) ≡ true =
          coarse_test vc (c - vc * 32) (omega arith)
          ∙ ap (λ w. test_bit w (c - vc * 32)) h
          ∙ test_bit-ones (c - vc * 32) (omega arith) in
        let e : vc * 32 + (c - vc * 32) ≡ c = omega arith in
        full-NoneIn c (full-of-coarse c (rw e at set)) q (omega arith) (omega arith)

    very_coarse_loop-FirstFit :
        (vc n : ℕ)
        → vc + n ≡ 0x400
        → FirstFit info size (vc * 1024) 0x100000 (very_coarse_loop info size vc n)
    unfolding very_coarse_loop
    very_coarse_loop-FirstFit vc zero e = λ q h k f. absurd (omega arith)
    very_coarse_loop-FirstFit vc (suc n) e =
        let rest = very_coarse_loop-FirstFit (vc + 1) n (omega arith) in
        let block = coarse_loop-FirstFit vc 0 32 refl in
        let lo : vc * 1024 + 0 * 32 ≡ vc * 1024 = omega arith in
        let next : (vc + 1) * 1024 ≡ vc * 1024 + 1024 = omega arith in
        let join = λ (skip : NoneIn info size (vc * 1024) (vc * 1024 + 1024)).
          FirstFit-join info size (vc * 1024) (vc * 1024 + 1024) 0x100000
            (very_coarse_loop info size (vc + 1) n) (omega arith) skip (rw next at rest) in
        elim (Bool-cases (info.is_page_allocated_coarse vc == ones)) [
          | inl set ↦ rw (set, FirstFit) (join (very_full-NoneIn vc (ground arith)))
          | inr clear ↦ elim (Search-cases (coarse_loop info size vc 0 32)) [
            | inl (p, h) ↦ rw (clear, h, FirstFit) (rw lo at (rw h at block))
            | inr (inl h) ↦ rw (clear, h, FirstFit) (join (rw lo at (rw h at block)))
            | inr (inr h) ↦ rw (clear, h, FirstFit) (rw lo at (rw h at block))
          ]
        ]

-- What `findMultiplePages` promises: the page that it returns starts a free run of that size, the
-- first one at or behind the 1024-page block of the search start; it fails only if there is none.
abbrev pub FindsFirst : PagingInfo → ℕ → Option ℕ → Type 0
FindsFirst info size (some p) =
    (info.page_search_start / 1024 * 1024 ≤ p)
    × IsFree info size p
    × ((q : ℕ) → info.page_search_start / 1024 * 1024 ≤ q → q < p → ¬ IsFree info size q)
FindsFirst info size none =
    (q : ℕ) → info.page_search_start / 1024 * 1024 ≤ q → ¬ IsFree info size q

-- On exact bitmaps, for at least one page and a search start inside the bitmap, the search
-- returns the first free run at or behind the 1024-page block of its start, and fails only if
-- there is no such run.
pub find_multiple_pages-first :
    (info : PagingInfo) (size : ℕ)
    → 0 < size
    → IsExact info
    → info.page_search_start < 0x100000
    → FindsFirst info size (find_multiple_pages info size)
unfolding find_multiple_pages
find_multiple_pages-first info size pos v start =
    let vc = info.page_search_start / 1024 in
    let all = very_coarse_loop-FirstFit info size pos v vc (0x400 - vc) (omega arith) in
    elim (Search-cases (very_coarse_loop info size vc (0x400 - vc))) [
      | inl (p, h) ↦ rw (h, FindsFirst) (rw h at all)
      | inr (inl h) ↦ rw (h, FindsFirst) (λ q k f. (rw h at all) q k (omega (arith, f.inside)) f)
      | inr (inr h) ↦ rw (h, FindsFirst) (λ q k f. (rw h at all) q k (omega (arith, f.inside)) f)
    ]
