-- ===== src/Pmdir/Tests.antt =====
-- taskman/path/pmdir.c: a directory with two children.
use lq.Base.{
  ℕ, zero, suc, ◌≡◌, refl, some, [], ◌∷◌, ◌<◌, arith, List, Result, value, fail, enoent, err, codes,
  enametoolong,
}
use lq.Chan.State.{first}
use lq.Chan.Connect.{set_ctx}
use lq.Chan.Sample.{channel, registry}
use lq.Pmdir.Table.{Slot, open_slot, list_names}
use lq.Pmdir.Listing.{list_names-open_slot}

abbrev child : ℕ → List ℕ
child zero = codes "null"
child (suc i) = codes "tty"

abbrev children : List ℕ → ℕ → Result (List ℕ)
children path zero = value (codes "null")
children path (suc zero) = value (codes "tty")
children path (suc (suc i)) = fail enoent

-- The second entry is free.
abbrev slots : List Slot
slots =
    record { badge = 7; next_idx = 5; path = codes "/srv" }
    ∷ record { badge = 0; next_idx = 0; path = [] }
    ∷ []

each_child : (j : ℕ) → j < 2 → children (codes "/dev") j ≡ value (child j)
each_child zero h = refl
each_child (suc zero) h = refl
each_child (suc (suc j)) h = absurd (omega (arith, h))

list_names-open_slot_example :
    let (slots', r') = (open_slot (codes "/dev") 9 slots (registry channel)).1 in
    list_names children 3 9 r' slots' ≡ some (codes "null" ∷ codes "tty" ∷ [], enoent)
unfolding open_slot set_ctx first
list_names-open_slot_example =
    list_names-open_slot children child enoent 2 9 (codes "/dev") slots (registry channel)
      (omega arith) (omega arith) each_child refl refl

-- The empty path is refused.
empty_path : (open_slot [] 9 slots (registry channel)).0 ≡ err enametoolong
unfolding open_slot
empty_path = refl
