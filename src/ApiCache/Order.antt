-- ===== src/ApiCache/Order.antt =====
-- The comparisons of v4/api/types/apicache.go as orders: a heap needs one that is a strict weak order.
use hc_data.Base.{
  inr, inl, ◌-◌, Bool-cases, ℕ, ◌*◌, ◌/◌, ◌≤◌, ◌<◌, ◌≡◌, refl, ◌∙◌, true, false, arith, ◌==◌,
}
use native.Mathlib.Nat.{div-eq_of_lt, div-lt_iff_lt-mul}
use hc_data.Base.Int.{pos, ◌-ℤ◌}
use hc_data.ApiCache.{
  CachedBlock, Less, less_by_height, less_by_access_count, less_by_access_time,
  less_by_access_count_then_height, make_less_by_access_time_then_count, abs,
}

-- A strict weak order: no block is less than itself, and where the first of three is less than the last,
-- the middle one is more than the first or less than the last.
pub record IsStrictWeakOrder (less : Less) : Type 0 where
  pub irreflexive : (a : CachedBlock) → less a a ≡ false
  pub between : (a b c : CachedBlock) → less a c ≡ true → less a b ≡ false → less b c ≡ true

-- The comparisons by height, by accesses, by access time, and by accesses and then height, are strict weak
-- orders.
pub fixed_orders :
    IsStrictWeakOrder less_by_height
    × IsStrictWeakOrder less_by_access_count
    × IsStrictWeakOrder less_by_access_time
    × IsStrictWeakOrder less_by_access_count_then_height
unfolding less_by_height less_by_access_count less_by_access_time less_by_access_count_then_height
fixed_orders = (
  record { irreflexive = λ a. ground arith; between = λ a b c h k. ground arith },
  record { irreflexive = λ a. ground arith; between = λ a b c h k. ground arith },
  record { irreflexive = λ a. ground arith; between = λ a b c h k. ground arith },
  record { irreflexive = λ a. ground arith; between = λ a b c h k. ground arith },
)

-- Access times closer than the resolution are not compared, others are.
near :
    (m : ℕ) (a b : CachedBlock)
    → abs (a.access_time -ℤ b.access_time) < m * 1000000
    → make_less_by_access_time_then_count m a b ≡ less_by_access_count a b
unfolding make_less_by_access_time_then_count
near m a b h = rw (div-eq_of_lt h) refl

far :
    (m : ℕ) (a b : CachedBlock)
    → 0 < m
    → m * 1000000 ≤ abs (a.access_time -ℤ b.access_time)
    → make_less_by_access_time_then_count m a b ≡ less_by_access_time a b
unfolding make_less_by_access_time_then_count
far m a b hm h =
    let quotient = abs (a.access_time -ℤ b.access_time) / (m * 1000000) in
    let large : (quotient == 0) ≡ false = elim (Bool-cases (quotient == 0)) [
      | inl small ↦
          let below_one : quotient < 1 = ground arith in
          let positive : 0 < m * 1000000 = omega arith in
          let inside : abs (a.access_time -ℤ b.access_time) < 1 * (m * 1000000) =
            (div-lt_iff_lt-mul positive).0 below_one in
          absurd (omega arith)
      | inr other ↦ other
    ] in
    rw large refl

-- A block with the number of accesses and the access time
abbrev block : ℕ → ℕ → CachedBlock
block n t = record {
  summary = record { height = 0; hash = 0 };
  accesses = n;
  access_time = pos t;
  heap_idx = pos 0;
}

-- The comparison by access time with a resolution, and then by accesses, which is what a new queue has, is
-- no strict weak order at any resolution: three blocks are less than each other in a circle.
pub binned_not_IsStrictWeakOrder :
    (m : ℕ) → 0 < m → ¬ IsStrictWeakOrder (make_less_by_access_time_then_count m)
unfolding less_by_access_count less_by_access_time
binned_not_IsStrictWeakOrder m hm w =
    let step = m * 1000000 - 1 in
    let a = block 0 (2 * step) in
    let b = block 1 step in
    let c = block 2 0 in
    let a_b : make_less_by_access_time_then_count m a b ≡ true =
      near m a b (ground arith) ∙ ground arith in
    let a_c : make_less_by_access_time_then_count m a c ≡ false =
      far m a c hm (ground arith) ∙ ground arith in
    let c_b : make_less_by_access_time_then_count m c b ≡ false =
      near m c b (ground arith) ∙ ground arith in
    absurd (ground (arith, w.between a c b a_b a_c, c_b))
