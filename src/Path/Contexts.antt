-- ===== src/Path/Contexts.antt =====
-- taskman/path/io.c: what the servers do to the registries when a connection is opened.
use lq.Base.{
  ℕ, ◌%◌, ◌≡◌, refl, ◌⊎◌, inl, inr, ◌+◌, ◌*◌, ◌++◌, ◌||◌, [], ◌∷◌, List, Bool-cases, Option-cases,
  Result-cases, length, drop, leb, ltb, ◌==◌, w32,
}
use lq.Chan.State.{Registry, first}
use lq.Chan.Connect.{set_ctx}
use lq.Cpiofs.Scan.{Layout, Archive, lookup}
use lq.Cpiofs.Dir.{Dir, Listing, dir_slot_alloc, open_dir, open_path, skip_slashes, is_subdir}
use lq.Pmdir.Table.{Slot, is_free, path_max, open_slot}
use lq.Synth.Sysfs.{Node, Tree, nothing, directory, file, open_node}
use lq.Synth.Procfs.{Place, ProcTree, nowhere, top, piddir, info, procfs_open}
use lq.Path.Io.{
  Io, Handler, Stores, console, null, zero_device, cpiofs, pmdir, sysfs, procfs, external,
  server_open,
}

-- A registry with at most one context written.
abbrev pub Touched : Registry → Registry → Type 0
Touched r r' = (r' ≡ r) ⊎ ((b : ℕ) × (c0 : ℕ) × (c1 : ℕ) × (r' ≡ (set_ctx b c0 c1 r).1))

Node-cases : (n : Node) → (n ≡ nothing) ⊎ ((n ≡ directory) ⊎ ((i : ℕ) × (n ≡ file i)))
Node-cases nothing = inl refl
Node-cases directory = inr (inl refl)
Node-cases (file i) = inr (inr (i, refl))

open_node-Touched :
    (tree : Tree) (path : List ℕ) (badge : ℕ) (r : Registry)
    → Touched r (open_node tree path badge r).1
unfolding open_node
open_node-Touched tree path badge r = elim (Node-cases (tree.resolve path)) [
  | inl e ↦ rw (open_node, e) (inl refl)
  | inr (inl e) ↦ rw (open_node, e) (inr (badge, 0, 0, refl))
  | inr (inr (i, e)) ↦ rw (open_node, e) (inr (badge, (i + 1) % w32, 0, refl))
]

Place-cases :
    (n : Place)
    → (n ≡ nowhere) ⊎ ((n ≡ top) ⊎ (((i : ℕ) × (n ≡ piddir i)) ⊎ ((i : ℕ) × (n ≡ info i))))
Place-cases nowhere = inl refl
Place-cases top = inr (inl refl)
Place-cases (piddir i) = inr (inr (inl (i, refl)))
Place-cases (info i) = inr (inr (inr (i, refl)))

procfs_open-Touched :
    (tree : ProcTree) (path : List ℕ) (badge : ℕ) (r : Registry)
    → Touched r (procfs_open tree path badge r).1
unfolding procfs_open
procfs_open-Touched tree path badge r = elim (Place-cases (tree.resolve path)) [
  | inl e ↦ rw (procfs_open, e) (inl refl)
  | inr (inl e) ↦ rw (procfs_open, e) (inr (badge, _, 0, refl))
  | inr (inr (inl (i, e))) ↦ rw (procfs_open, e) (inr (badge, _, 0, refl))
  | inr (inr (inr (i, e))) ↦ rw (procfs_open, e) (inr (badge, _, 0, refl))
]

open_dir-Touched :
    (badge : ℕ) (prefix : List ℕ) (dirs : List Dir) (r : Registry)
    → Touched r (open_dir badge prefix dirs r).1.1
unfolding open_dir
open_dir-Touched badge prefix dirs r = elim (Result-cases (dir_slot_alloc badge prefix dirs).0) [
  | inl (e, q) ↦ rw (open_dir, q) (inl refl)
  | inr (i, q) ↦ rw (open_dir, q) (inr (badge, 0, i, refl))
]

open_slot-Touched :
    (path : List ℕ) (badge : ℕ) (slots : List Slot) (r : Registry)
    → Touched r (open_slot path badge slots r).1.1
unfolding open_slot
open_slot-Touched path badge slots r =
    elim (Bool-cases (length path == 0 || leb path_max (length path))) [
      | inl t ↦ rw (open_slot, t) (inl refl)
      | inr f ↦ elim (Option-cases (first is_free slots)) [
        | inl n ↦ rw (open_slot, f, n) (inl refl)
        | inr ((i, s), e) ↦ rw (open_slot, f, e) (inr (badge, 0, i, refl))
      ]
    ]

module _ (layout : Layout) (ar : Archive) (listing : Listing) where
  open_path-Touched :
      (path : List ℕ) (consumed badge : ℕ) (dirs : List Dir) (r : Registry)
      → Touched r (open_path layout ar listing path consumed badge dirs r).1.1
  unfolding open_path
  open_path-Touched path consumed badge dirs r =
      let name = skip_slashes (drop consumed path) in
      elim (Bool-cases (length name == 0)) [
        | inl t ↦ rw (open_path, t) (open_dir-Touched badge [] dirs r)
        | inr f ↦ elim (Option-cases (lookup layout ar name)) [
          | inr (e, q) ↦ elim (Bool-cases (leb w32 e.size)) [
            | inl big ↦ rw (open_path, f, q, big) (inl refl)
            | inr fits ↦ rw (open_path, f, q, fits) (inr (badge, e.place, e.size * w32, refl))
          ]
          | inl n ↦ elim (Bool-cases (is_subdir listing name)) [
            | inr other ↦ rw (open_path, f, n, other) (inl refl)
            | inl sub ↦ elim (Bool-cases (ltb 64 (length name + 2))) [
              | inl long ↦ rw (open_path, f, n, sub, long) (inl refl)
              | inr short ↦
                  rw (open_path, f, n, sub, short)
                    (open_dir-Touched badge (name ++ b'/' ∷ []) dirs r)
            ]
          ]
        ]
      ]

module _ {K : Type 0} (st : Stores) where
  -- What a server does for a new connection: at most one context is written, and the counter of
  -- badges stays.
  pub server_open-Touched :
      (h : Handler) (path : List ℕ) (consumed badge : ℕ) (io : Io K)
      → let io' = (server_open st h path consumed badge io).1 in
        Touched io.system.registry io'.system.registry
        × (io'.system.next_badge ≡ io.system.next_badge)
  unfolding server_open
  server_open-Touched cpiofs path consumed badge io = (
    open_path-Touched st.layout st.archive st.listing path consumed badge io.dirs
        io.system.registry,
    refl,
  )
  server_open-Touched pmdir path consumed badge io =
      (open_slot-Touched path badge io.slots io.system.registry, refl)
  server_open-Touched sysfs path consumed badge io =
      (open_node-Touched st.sys path badge io.system.registry, refl)
  server_open-Touched procfs path consumed badge io =
      (procfs_open-Touched st.proc path badge io.system.registry, refl)
  server_open-Touched console path consumed badge io = (inl refl, refl)
  server_open-Touched null path consumed badge io = (inl refl, refl)
  server_open-Touched zero_device path consumed badge io = (inl refl, refl)
  server_open-Touched external path consumed badge io = (inl refl, refl)
