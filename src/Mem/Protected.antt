-- ===== src/Mem/Protected.antt =====
-- taskman/mem/mmap.c: what a change of protection answers.
use lq.Base.{
  ℕ, zero, suc, ◌+◌, ◌*◌, ◌%◌, ◌<◌, ◌≡◌, ◌≢◌, refl, sym, subst, Bool, true, not, ◌||◌, none, some,
  arith, ltb, ◌==◌, add64, w64, Status, ok, err, einval, Bool-cases, Status-cases, Option-cases,
  inl, inr, ◌⊎◌,
}
use lq.Mem.Space.{Space, Kernel, page_4k, round_up}
use lq.Mem.Anonymous.{Rights}
use lq.Mem.Unmap.{find_mmap_idx}
use lq.Mem.Protect.{Prot, in_mmap_span, protect_page, protect_pages, mprotect_serve}

-- The page is in one of the two registries of mapped pages.
abbrev pub IsMapped : Space → ℕ → Type 0
IsMapped s va = (find_mmap_idx va s.mprot ≢ none) ⊎ (in_mmap_span va s.mmap ≡ true)

module _ {K : Type 0} (kernel : Kernel K) (rights : Rights) (cap_rights : Bool → Bool → ℕ) where
  protect_page-IsMapped :
      (prot : Prot) (va : ℕ) (s : Space) (k : K)
      → (protect_page kernel rights cap_rights prot va s k).0 ≡ ok
      → IsMapped s va
  unfolding protect_page
  protect_page-IsMapped prot va s k h = elim (Option-cases (find_mmap_idx va s.mprot)) [
    | inr (hit, q) ↦ inl (λ n. absurd (ground (arith, q, n)))
    | inl q ↦ elim (Bool-cases (in_mmap_span va s.mmap)) [
      | inl t ↦ inr t
      | inr t ↦ absurd (ground (arith, rw (protect_page, q, t) at h))
    ]
  ]

  -- The status of a run over the pages from `va` on, with what its success says.
  abbrev Ends : ℕ → Prot → ℕ → ℕ → Space → K → Type 0
  Ends fuel prot va end s k =
      (status : Status) × (k' : K) × (protect_pages kernel rights cap_rights fuel prot va end s k
        ≡ some (status, k'))
      × (status ≡ ok → (i : ℕ) → va + i * page_4k < end → IsMapped s (va + i * page_4k))

  first_page : (va : ℕ) (s : Space) → IsMapped s va → IsMapped s (va + 0 * page_4k)
  first_page va s h = subst (IsMapped s) (omega arith) h

  pages-step :
      (va end : ℕ) (s : Space)
      → IsMapped s va
      → ((i : ℕ) → (va + page_4k) + i * page_4k < end → IsMapped s ((va + page_4k) + i * page_4k))
      → (i : ℕ) → va + i * page_4k < end
      → IsMapped s (va + i * page_4k)
  pages-step va end s h rest zero l = first_page va s h
  pages-step va end s h rest (suc i) l = subst (IsMapped s) (omega arith) (rest i (omega arith))

  protect_pages-Ends :
      (fuel : ℕ) (prot : Prot) (va end : ℕ) (s : Space) (k : K)
      → end < w64
      → va % page_4k ≡ 0
      → end % page_4k ≡ 0
      → end < va + (fuel + 1) * page_4k
      → Ends (suc fuel) prot va end s k
  unfolding protect_pages
  protect_pages-Ends zero prot va end s k w a b f = elim (Bool-cases (ltb va end)) [
    | inr t ↦ rw (protect_pages, t) (ok, k, refl, λ _ i l. absurd (ground arith))
    | inl t ↦ let l : va < end = ground arith in absurd (omega arith)
  ]
  protect_pages-Ends (suc fuel) prot va end s k w a b f = elim (Bool-cases (ltb va end)) [
    | inr t ↦ rw (protect_pages, t) (ok, k, refl, λ _ i l. absurd (ground arith))
    | inl t ↦ elim (Status-cases ((protect_page kernel rights cap_rights prot va s k).0)) [
      | inr (e, q) ↦ rw (protect_pages, t, q) (err e, _, refl, λ n. absurd (ground (arith, n)))
      | inl q ↦
          let l : va < end = ground arith in
          let next : add64 va page_4k ≡ va + page_4k = omega arith in
          let (status, k', r, m) =
            protect_pages-Ends fuel prot (va + page_4k) end s
              (protect_page kernel rights cap_rights prot va s k).1 w (omega arith) b
              (omega arith) in
          rw (protect_pages, t, q)
            (
              status,
              k',
              subst
                  (λ v.
                    protect_pages kernel rights cap_rights (suc fuel) prot v end s
                      (protect_page kernel rights cap_rights prot va s k).1
                    ≡ some (status, k'))
                  (sym next) r,
              λ good. pages-step va end s (protect_page-IsMapped prot va s k q) (m good),
            )
    ]
  ]

  -- `tm_mprotect_serve` ends: as many turns as the range has bytes, and one, are enough. Where it
  -- answers 0 for a process, each page of the range was in one of the registries of mapped pages. The
  -- range with its last page ends before 2^64.
  pub mprotect_serve_ends :
      (addr len : ℕ) (prot : Prot) (s : Space) (k : K)
      → addr + len + page_4k < w64
      → (status : Status) × (k' : K) × (mprotect_serve kernel rights cap_rights addr len prot
            (some s)
            k
          ≡ some (status, k'))
        × (status ≡ ok
            → (i : ℕ) → addr + i * page_4k < addr + len
            → IsMapped s (addr + i * page_4k))
  unfolding mprotect_serve
  mprotect_serve_ends addr len prot s k w =
      elim (Bool-cases (len == 0 || not (addr % page_4k == 0))) [
        | inl t ↦ rw (mprotect_serve, t) (err einval, k, refl, λ n. absurd (ground (arith, n)))
        | inr t ↦
            let a : addr % page_4k ≡ 0 = ground (arith, t) in
            let (status, k', r, m) =
              protect_pages-Ends len prot addr (round_up page_4k (add64 addr len)) s k (omega arith)
                a (omega arith) (omega arith) in
            rw (mprotect_serve, t) (status, k', r, λ good i l. m good i (omega arith))
      ]
