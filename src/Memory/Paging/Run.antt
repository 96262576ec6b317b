-- ===== src/Memory/Paging/Run.antt =====
-- What the loops of `findMultiplePages` have to find: a free run of pages, and none before it.
use honey_os.Base.{
  ℕ, zero, suc, ◌+◌, ◌-◌, ◌*◌, ◌/◌, ◌%◌, ◌≤◌, ◌<◌, ◌≡◌, refl, ◌∙◌, true, false, ltb, ◌==◌, arith,
  Bool-cases, ◌⊎◌, inl, inr,
}
use honey_os.Base.Word.{test_bit}
use honey_os.Memory.Paging.{
  PagingInfo, Probe, vacant, taken, beyond, probe_run, Search, found, exhausted, outside,
}
use honey_os.Memory.Paging.Bitmap.{is_allocated}

-- The `size` pages from `q` on exist and are free.
pub record IsFree (info : PagingInfo) (size q : ℕ) : Type 0 where
  pub inside : q + size ≤ 0x100000
  pub clear : (i : ℕ) → i < size → is_allocated info (q + i) ≡ false

-- No run of `size` free pages starts in `[lo, hi)`.
abbrev pub NoneIn : PagingInfo → ℕ → ℕ → ℕ → Type 0
NoneIn info size lo hi = (q : ℕ) → lo ≤ q → q < hi → ¬ IsFree info size q

-- What a loop over the candidates `[lo, hi)` has to return.
abbrev pub FirstFit : PagingInfo → ℕ → ℕ → ℕ → Search → Type 0
FirstFit info size lo hi (found p) = (lo ≤ p) × IsFree info size p × NoneIn info size lo p
FirstFit info size lo hi exhausted = NoneIn info size lo hi
FirstFit info size lo hi outside = NoneIn info size lo 0x100000

module _ (info : PagingInfo) (size : ℕ) where
  pub NoneIn-join :
      (lo mid hi : ℕ) → NoneIn info size lo mid → NoneIn info size mid hi → NoneIn info size lo hi
  NoneIn-join lo mid hi a b q h k = elim (Bool-cases (ltb q mid)) [
    | inl e ↦ a q h (ground arith)
    | inr e ↦ b q (ground arith) k
  ]

  pub FirstFit-join :
      (lo mid hi : ℕ) (s : Search)
      → lo ≤ mid
      → NoneIn info size lo mid
      → FirstFit info size mid hi s
      → FirstFit info size lo hi s
  FirstFit-join lo mid hi (found p) h a (l, f, n) = (omega arith, f, NoneIn-join lo mid p a n)
  FirstFit-join lo mid hi exhausted h a n = NoneIn-join lo mid hi a n
  FirstFit-join lo mid hi outside h a n = NoneIn-join lo mid 0x100000 a n

-- What the innermost loop finds out about the pages from `p + check` on.
abbrev pub Probed : PagingInfo → ℕ → ℕ → ℕ → Probe → Type 0
Probed info p check size vacant =
    (i : ℕ) → check ≤ i → i < size → (is_allocated info (p + i) ≡ false) × (p + i < 0x100000)
Probed info p check size taken = (i : ℕ) × (i < size) × (is_allocated info (p + i) ≡ true)
Probed info p check size beyond = (i : ℕ) × (i < size) × (0x100000 ≤ p + i)

module _ (info : PagingInfo) where
  pub page_test :
      (cp fine check : ℕ)
      → is_allocated info (cp * 32 + fine + check)
        ≡ test_bit (info.is_page_allocated (cp + (fine + check) / 32)) ((fine + check) % 32)
  unfolding is_allocated
  page_test cp fine check =
      let word : (cp * 32 + fine + check) / 32 ≡ cp + (fine + check) / 32 = omega arith in
      let place : (cp * 32 + fine + check) % 32 ≡ (fine + check) % 32 = omega arith in
      rw (word, place) refl

  pub Probed-step :
      (p check size : ℕ) (s : Probe)
      → check < size
      → is_allocated info (p + check) ≡ false
      → p + check < 0x100000
      → Probed info p (check + 1) size s
      → Probed info p check size s
  Probed-step p check size vacant h e k rest = λ i l m. elim (Bool-cases (check == i)) [
    | inl same ↦ ground arith
    | inr other ↦ rest i (ground arith) m
  ]
  Probed-step p check size taken h e k rest = rest
  Probed-step p check size beyond h e k rest = rest

  pub probe_run-Probed :
      (cp fine check n size : ℕ)
      → check + n ≡ size
      → Probed info (cp * 32 + fine) check size (probe_run info cp fine check n)
  unfolding probe_run
  probe_run-Probed cp fine check zero size e = λ i l m. absurd (omega arith)
  probe_run-Probed cp fine check (suc n) size e =
      elim (Bool-cases (ltb (cp + (fine + check) / 32) 0x8000)) [
        | inl near ↦
            elim (Bool-cases (
              test_bit (info.is_page_allocated (cp + (fine + check) / 32)) ((fine + check) % 32))) [
                | inl set ↦ rw (near, set) (check, omega arith, page_test cp fine check ∙ set)
                | inr clear ↦
                    rw (near, clear)
                      (Probed-step (cp * 32 + fine) check size
                        (probe_run info cp fine (check + 1) n) (omega arith)
                        (page_test cp fine check ∙ clear) (ground arith)
                        (probe_run-Probed cp fine (check + 1) n size (omega arith)))
              ]
        | inr far ↦ rw far (check, omega arith, ground arith)
      ]

  -- A probe that fails leaves no free run at its start.
  pub not-IsFree_of_taken : (p size : ℕ) → Probed info p 0 size taken → ¬ IsFree info size p
  not-IsFree_of_taken p size (i, l, e) f = ground (arith, f.clear i l)

  pub not-IsFree_of_beyond :
      (p size : ℕ) → Probed info p 0 size beyond → (q : ℕ) → p ≤ q → ¬ IsFree info size q
  not-IsFree_of_beyond p size (i, l, e) q h f = absurd (omega (arith, f.inside))

  pub IsFree-of_vacant : (p size : ℕ) → 0 < size → Probed info p 0 size vacant → IsFree info size p
  IsFree-of_vacant p size h all = record {
    inside = omega (arith, (all (size - 1) (omega arith) (omega arith)).1);
    clear = λ i l. (all i (omega arith) l).0;
  }

pub Probe-cases : (s : Probe) → (s ≡ vacant) ⊎ (s ≡ taken) ⊎ (s ≡ beyond)
Probe-cases vacant = inl refl
Probe-cases taken = inr (inl refl)
Probe-cases beyond = inr (inr refl)

pub Search-cases : (s : Search) → ((p : ℕ) × (s ≡ found p)) ⊎ (s ≡ exhausted) ⊎ (s ≡ outside)
Search-cases (found p) = inl (p, refl)
Search-cases exhausted = inr (inl refl)
Search-cases outside = inr (inr refl)
