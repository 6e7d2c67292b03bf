-- ===== src/StakeDb/TicketPool/Replay.antt =====
-- The abstract view of the ticket pool: which tickets are live after a sequence of diffs, and when a
-- sequence of diffs is consistent.
use hc_data.Base.{
  ℕ, zero, suc, ◌≡◌, refl, Bool, true, false, not, ◌&&◌, ◌||◌, List, [], ◌∷◌, ◌++◌, some, arith,
  take, get_elem?,
}
use hc_data.Base.HashSet.{Hash, contains, IsDistinct}
use hc_data.StakeDb.DiffDb.{PoolDiff}

-- Which tickets are live.
abbrev pub Live : Type 0
Live = Hash → Bool

abbrev pub none_live : Live
none_live h = false

-- A block's diff: its tickets come in, and then others go out.
abbrev pub after : Live → PoolDiff → Live
after live d h = not (contains d.tickets_out h) && (contains d.tickets_in h || live h)

abbrev pub replay : Live → List PoolDiff → Live
replay live [] = live
replay live (d ∷ ds) = replay (after live d) ds

-- The tickets that come in are new, and those that go out are live or have just come in; none is
-- listed twice.
pub record Fits (live : Live) (d : PoolDiff) : Type 0 where
  pub in_distinct : IsDistinct d.tickets_in
  pub out_distinct : IsDistinct d.tickets_out
  pub in_new : (h : Hash) → contains d.tickets_in h ≡ true → live h ≡ false
  pub out_live :
      (h : Hash) → contains d.tickets_out h ≡ true → (contains d.tickets_in h || live h) ≡ true

abbrev pub IsConsistent : Live → List PoolDiff → Type 0
IsConsistent live [] = Unit
IsConsistent live (d ∷ ds) = Fits live d × IsConsistent (after live d) ds

pub replay-append :
    (live : Live) (ds : List PoolDiff) (d : PoolDiff)
    → replay live (ds ++ d ∷ []) ≡ after (replay live ds) d
replay-append live [] d = refl
replay-append live (e ∷ ds) d = replay-append (after live e) ds d

pub Fits-get_elem? :
    (live : Live) (ds : List PoolDiff) (n : ℕ) (d : PoolDiff)
    → IsConsistent live ds
    → get_elem? ds n ≡ some d
    → Fits (replay live (take n ds)) d
Fits-get_elem? live [] n d c h = ground arith
Fits-get_elem? live (e ∷ ds) zero d c h = let p : e ≡ d = ground arith in rw p at c.0
Fits-get_elem? live (e ∷ ds) (suc n) d c h = Fits-get_elem? (after live e) ds n d c.1 h

pub IsConsistent-take :
    (live : Live) (ds : List PoolDiff) (n : ℕ)
    → IsConsistent live ds
    → IsConsistent live (take n ds)
IsConsistent-take live ds zero c = tt
IsConsistent-take live [] (suc n) c = tt
IsConsistent-take live (d ∷ ds) (suc n) c = (c.0, IsConsistent-take (after live d) ds n c.1)

pub IsConsistent-append :
    (live : Live) (ds : List PoolDiff) (d : PoolDiff)
    → IsConsistent live ds
    → Fits (replay live ds) d
    → IsConsistent live (ds ++ d ∷ [])
IsConsistent-append live [] d c f = (f, tt)
IsConsistent-append live (e ∷ ds) d c f = (c.0, IsConsistent-append (after live e) ds d c.1 f)
