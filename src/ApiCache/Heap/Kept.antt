-- ===== src/ApiCache/Heap/Kept.antt =====
-- What the heap operations of v4/api/types/apicache.go leave as it was: the blocks, counted by any test
-- of their summaries, and that each block has the index at which it stands.
pub mod Moves
pub mod Ends
use hc_data.Base.{
  ℕ, zero, suc, ◌+◌, ◌≤◌, ◌≡◌, refl, ap, ◌∙◌, Bool, true, false, List, [], ◌∷◌, ◌++◌, Option, none,
  some, arith, if◌then◌else◌, length, get_elem?, set,
}
use hc_data.Base.Int.{ℤ, pos}
use hc_data.ApiCache.{Summary, CachedBlock}
use hc_data.ApiCache.Heap.{Heap, bind}

-- A computation that ends, with a value that has the property
abbrev pub Gives : {A : Type 0} → (A → Type 0) → Option A → Type 0
Gives {A} P o = (a : A) × (o ≡ some a) × P a

module _ {A : Type 0} {P : A → Type 0} where
  pub gives : {a : A} → P a → Gives P (some a)
  gives {a} h = (a, refl, h)

  pub Gives-bind :
      {B : Type 0} {Q : B → Type 0} {o : Option A} {f : A → Option B}
      → Gives P o
      → ((a : A) → P a → Gives Q (f a))
      → Gives Q (bind o f)
  Gives-bind (a, e, h) k = rw e (k a h)

  pub Gives-map : {Q : A → Type 0} {o : Option A} → Gives P o → ((a : A) → P a → Q a) → Gives Q o
  Gives-map (a, e, h) k = (a, e, k a h)

  pub Gives-if :
      {x y : Option A} (b : Bool)
      → (b ≡ true → Gives P x)
      → (b ≡ false → Gives P y)
      → Gives P (if b then x else y)
  Gives-if true f g = f refl
  Gives-if false f g = g refl

-- 1 for a summary that passes the test, else 0
abbrev pub one : (Summary → Bool) → Summary → ℕ
one p s = if p s then 1 else 0

-- How many blocks have a summary that passes the test
unfoldable pub tally : (Summary → Bool) → Heap → ℕ
tally p [] = 0
tally p (b ∷ bs) = one p b.summary + tally p bs

pub tally-append :
    (p : Summary → Bool) (bs cs : Heap) → tally p (bs ++ cs) ≡ tally p bs + tally p cs
unfolding tally
tally-append p [] cs = omega arith
tally-append p (b ∷ bs) cs = omega (arith, tally-append p bs cs)

pub tally-set :
    (p : Summary → Bool) (i : ℕ) (b c : CachedBlock) (bh : Heap)
    → get_elem? bh i ≡ some b
    → tally p (set i c bh) + one p b.summary ≡ tally p bh + one p c.summary
unfolding tally
tally-set p i b c [] h = absurd (ground arith)
tally-set p zero b c (x ∷ bh) h =
    let same : x ≡ b = ground arith in omega (arith, ap (λ y. one p y.summary) same)
tally-set p (suc i) b c (x ∷ bh) h = omega (arith, tally-set p i b c bh h)

-- Each block has the index at which it stands.
abbrev pub IsPlaced : Heap → Type 0
IsPlaced bh = (i : ℕ) (b : CachedBlock) → get_elem? bh i ≡ some b → b.heap_idx ≡ pos i

-- The same blocks in another order, with the blocks from n on where they were
pub record IsRearranged (n : ℕ) (bh ch : Heap) : Type 0 where
  pub same_length : length ch ≡ length bh
  pub same_tally : (p : Summary → Bool) → tally p ch ≡ tally p bh
  pub keeps_placed : IsPlaced bh → IsPlaced ch
  pub same_above : (i : ℕ) → n ≤ i → get_elem? ch i ≡ get_elem? bh i

pub IsRearranged-refl : (n : ℕ) (bh : Heap) → IsRearranged n bh bh
IsRearranged-refl n bh = record {
  same_length = refl;
  same_tally = λ p. refl;
  keeps_placed = λ h. h;
  same_above = λ i h. refl;
}

pub IsRearranged-trans :
    {n : ℕ} {bh ch dh : Heap} → IsRearranged n bh ch → IsRearranged n ch dh → IsRearranged n bh dh
IsRearranged-trans r s = record {
  same_length = s.same_length ∙ r.same_length;
  same_tally = λ p. s.same_tally p ∙ r.same_tally p;
  keeps_placed = λ h. s.keeps_placed (r.keeps_placed h);
  same_above = λ i h. s.same_above i h ∙ r.same_above i h;
}

-- A block of the heap is counted.
pub one-tally :
    (p : Summary → Bool) (i : ℕ) (b : CachedBlock) (bh : Heap)
    → get_elem? bh i ≡ some b
    → one p b.summary ≤ tally p bh
unfolding tally
one-tally p i b [] h = absurd (ground arith)
one-tally p zero b (x ∷ bh) h =
    let same : x ≡ b = ground arith in omega (arith, ap (λ y. one p y.summary) same)
one-tally p (suc i) b (x ∷ bh) h = omega (arith, one-tally p i b bh h)
