-- ===== src/Rsrcdb/Cover.antt =====
-- Addresses: how often a class list covers one, and who owns it.
use lq.Base.{ℕ, ◌+◌, ◌≤◌, ◌<◌, ◌≡◌, arith, ◌==◌, ◌&&◌, if◌then◌else◌, leb, w64}
use lq.Rsrcdb.Entry.{Abi, Entry}
use lq.Rsrcdb.Totals.{Additive}
use lq.Rsrcdb.Db.{Db}
use lq.Rsrcdb.Sums.{db_total}

-- 1 if `e` is a range of class `c` that holds the address `a` and is `owner`'s.
abbrev pub holds : ℕ → ℕ → ℕ → Entry → ℕ
holds c owner a e =
    if e.class == c && e.owner == owner && leb e.start a && leb a e.end then 1 else 0

-- A range of addresses that does not wrap, and does not end at the last one.
pub record IsRange (e : Entry) : Type 0 where
  pub rises : e.start ≤ e.end
  pub fits : e.end + 1 < w64

-- In how many ranges of class `c` that are `owner`'s the address lies.
abbrev pub held : Abi → ℕ → ℕ → ℕ → Db → ℕ
held abi c owner a = db_total (holds c owner a) (λ i. 0) abi.type_count

-- Free ranges of one class that meet become one range of the same addresses.
pub holds-Additive :
    (c q a k : ℕ) → Additive (λ e. IsRange e × (e.class ≡ k)) (holds c q a) (λ i. 0)
holds-Additive c q a k = record {
  stays = λ e r p p' h. ground (arith, h.meets, p.0.fits);
  adds = λ e r p p' h. ground (arith, h.free, h.next_free, h.meets, p.0.fits);
}
