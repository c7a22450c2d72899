-- ===== src/Rsrcdb/Listed.antt =====
-- The shape of a class list: sorted by start, and every entry of the list's class.
use lq.Base.{ℕ, ◌≤◌, ◌≡◌, List, [], ◌∷◌, arith, ◌==◌, Bool-cases, inl, inr}
use lq.Rsrcdb.Entry.{
  Entry, Merged, insert_sorted, remove_id, modify, merge_right, merge_left, merge_after, merge_list,
}
use lq.Rsrcdb.Totals.{In}

-- The entries belong to class `c`, and their starts rise from `s` on.
abbrev pub Listed : ℕ → ℕ → List Entry → Type 0
Listed c s [] = Unit {0}
Listed c s (x ∷ xs) = (s ≤ x.start) × (x.class ≡ c) × Listed c x.start xs

Listed-mono : (c : ℕ) {s t : ℕ} (xs : List Entry) → s ≤ t → Listed c t xs → Listed c s xs
Listed-mono c [] h l = tt
Listed-mono c (x ∷ xs) h l = (omega arith, l.1, l.2)

pub Listed-class : (c s : ℕ) (xs : List Entry) (e : Entry) → In e xs → Listed c s xs → e.class ≡ c
Listed-class c s [] e h l = absurd h
Listed-class c s (x ∷ xs) e (inl p) l = ground arith
Listed-class c s (x ∷ xs) e (inr h) l = Listed-class c x.start xs e h l.2

pub insert_sorted-Listed :
    (c s : ℕ) (e : Entry) (xs : List Entry)
    → s ≤ e.start
    → e.class ≡ c
    → Listed c s xs
    → Listed c s (insert_sorted e xs)
unfolding insert_sorted
insert_sorted-Listed c s e [] h k l = (h, k, tt)
insert_sorted-Listed c s e (x ∷ xs) h k l = ground (arith, insert_sorted-Listed c x.start e xs)

pub remove_id-Listed : (c s i : ℕ) (xs : List Entry) → Listed c s xs → Listed c s (remove_id i xs)
unfolding remove_id
remove_id-Listed c s i [] l = tt
remove_id-Listed c s i (x ∷ xs) l =
    ground
      (arith, remove_id-Listed c x.start i xs l.2, Listed-mono c {s = s} {t = x.start} xs l.0 l.2)

-- A write that leaves the start and the class alone.
abbrev pub Stays : (Entry → Entry) → Type 0
Stays f = (x : Entry) → ((f x).start ≡ x.start) × ((f x).class ≡ x.class)

pub modify-Listed :
    (c s i : ℕ) (f : Entry → Entry) (xs : List Entry)
    → Stays f
    → Listed c s xs
    → Listed c s (modify i f xs)
unfolding modify
modify-Listed c s i f [] k l = tt
modify-Listed c s i f (x ∷ xs) k l = elim (Bool-cases (x.id == i)) [
  | inl t ↦ rw (t, (k x).0, (k x).1) l
  | inr t ↦ rw t (l.0, l.1, modify-Listed c x.start i f xs k l.2)
]

merge_right-Listed :
    (c s : ℕ) (e : Entry) (xs : List Entry) → Listed c s (e ∷ xs) → Listed c s (merge_right e xs).0
unfolding merge_right
merge_right-Listed c s e [] l = l
merge_right-Listed c s e (r ∷ rs) l =
    ground (arith, Listed-mono c {s = e.start} {t = r.start} rs l.2.0 l.2.2)

merge_left-Listed :
    (c s : ℕ) (p : Entry) (m : Merged)
    → s ≤ p.start
    → p.class ≡ c
    → Listed c p.start m.0
    → Listed c s (merge_left p m).0
unfolding merge_left
merge_left-Listed c s p ([], freed) h k l = (h, k, tt)
merge_left-Listed c s p (e ∷ rest, freed) h k l =
    ground (arith, Listed-mono c {s = p.start} {t = e.start} rest l.0 l.2)

merge_after-Listed :
    (c s i : ℕ) (p : Entry) (xs : List Entry)
    → s ≤ p.start
    → p.class ≡ c
    → Listed c p.start xs
    → Listed c s (merge_after i p xs).0
unfolding merge_after
merge_after-Listed c s i p [] h k l = (h, k, tt)
merge_after-Listed c s i p (x ∷ xs) h k l = elim (Bool-cases (x.id == i)) [
  | inl t ↦
      rw (t, merge_after)
        (merge_left-Listed c s p (merge_right x xs) h k (merge_right-Listed c p.start x xs l))
  | inr t ↦ rw (t, merge_after) (h, k, merge_after-Listed c p.start i x xs l.0 l.1 l.2)
]

pub merge_list-Listed :
    (c s i : ℕ) (xs : List Entry) → Listed c s xs → Listed c s (merge_list i xs).0
unfolding merge_list
merge_list-Listed c s i [] l = tt
merge_list-Listed c s i (x ∷ xs) l = elim (Bool-cases (x.id == i)) [
  | inl t ↦ rw t (merge_right-Listed c s x xs l)
  | inr t ↦ rw t (merge_after-Listed c s i x xs l.0 l.1 l.2)
]
