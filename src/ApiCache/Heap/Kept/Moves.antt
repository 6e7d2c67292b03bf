-- ===== src/ApiCache/Heap/Kept/Moves.antt =====
-- The heap operations of v4/api/types/apicache.go end, and rearrange the blocks below a bound.
use hc_data.Base.{
  ℕ, zero, suc, ◌+◌, ◌-◌, ◌*◌, ◌/◌, ◌≤◌, ◌<◌, ◌≡◌, refl, ap, sym, ◌∙◌, Bool-cases, inl, inr, Option,
  some, arith, ltb, leb, ◌==◌, length, get_elem?, set, length-set, get_elem?-lt, get_elem?-some,
  get_elem?-set_self, get_elem?-set_other,
}
use hc_data.Base.Int.{pos}
use hc_data.ApiCache.{CachedBlock, Less}
use hc_data.ApiCache.Heap.{
  Heap, bind, less_at, swap, up, least_child, down, settle, fix, init_from, init,
}
use hc_data.ApiCache.Heap.Kept.{
  Gives, gives, Gives-bind, Gives-map, Gives-if, one, tally-set, IsRearranged, IsRearranged-refl,
  IsRearranged-trans,
}

less_at-Gives :
    (less : Less) (i j : ℕ) (bh : Heap)
    → i < length bh
    → j < length bh
    → Gives (λ b. Unit) (less_at less i j bh)
unfolding less_at
less_at-Gives less i j bh hi hj =
    let (a, ea) = get_elem?-lt bh i hi in
    let (b, eb) = get_elem?-lt bh j hj in rw (ea, eb) (gives tt)

-- A block put at its index
pub set-IsPlaced :
    (i : ℕ) (b : CachedBlock) (bh : Heap) (k : ℕ) (c : CachedBlock)
    → b.heap_idx ≡ pos i
    → i < length bh
    → get_elem? (set i b bh) k ≡ some c
    → (get_elem? bh k ≡ some c → c.heap_idx ≡ pos k)
    → c.heap_idx ≡ pos k
set-IsPlaced i b bh k c hb h e rest = elim (Bool-cases (i == k)) [
  | inl same ↦
      let at_k : i ≡ k = ground arith in
      let found : some b ≡ some c =
        sym (get_elem?-set_self i b bh h) ∙ ap (get_elem? (set i b bh)) at_k ∙ e in
      ground arith
  | inr other ↦ rest (sym (get_elem?-set_other i k b bh (λ s. absurd (ground arith))) ∙ e)
]

-- After an index is overwritten, another one has the summary that it had, where the new entry has that
-- summary if the two are the same.
set_summary :
    (i j : ℕ) (b c : CachedBlock) (bh : Heap)
    → i < length bh
    → get_elem? bh j ≡ some c
    → (i ≡ j → b.summary ≡ c.summary)
    → (y : CachedBlock) × (get_elem? (set i b bh) j ≡ some y) × (y.summary ≡ c.summary)
set_summary i j b c bh h e same = elim (Bool-cases (i == j)) [
  | inl at_j ↦
      let eq : i ≡ j = ground arith in
      (b, sym (ap (get_elem? (set i b bh)) eq) ∙ get_elem?-set_self i b bh h, same eq)
  | inr other ↦ (c, get_elem?-set_other i j b bh (λ s. absurd (ground arith)) ∙ e, refl)
]

pub swap_some-IsRearranged :
    (n i j : ℕ) (a b : CachedBlock) (bh : Heap)
    → i < n
    → j < n
    → get_elem? bh i ≡ some a
    → get_elem? bh j ≡ some b
    → IsRearranged n bh
        (set j (record a { heap_idx = pos j }) (set i (record b { heap_idx = pos i }) bh))
swap_some-IsRearranged n i j a b bh hi hj ea eb =
    let a' = record a { heap_idx = pos j } in
    let b' = record b { heap_idx = pos i } in
    let mid = set i b' bh in
    let len : length mid ≡ length bh = length-set i b' bh in
    let li = get_elem?-some bh i a ea in
    let lj = get_elem?-some bh j b eb in
    let (y, ey, sy) = set_summary i j b' b bh li eb (λ s. refl) in
    record {
      same_length = length-set j a' mid ∙ len;
      same_tally =
          λ p. omega (arith, tally-set p j y a' mid ey, tally-set p i a b' bh ea, ap (one p) sy);
      keeps_placed = λ h k c e.
          set-IsPlaced j a' mid k c refl (omega arith) e
            λ e'. set-IsPlaced i b' bh k c refl li e' (h k c);
      same_above = λ k h.
          get_elem?-set_other j k a' mid (λ s. absurd (omega arith))
          ∙ get_elem?-set_other i k b' bh (λ s. absurd (omega arith));
    }

swap-Gives :
    (n i j : ℕ) (bh : Heap)
    → i < n
    → j < n
    → n ≤ length bh
    → Gives (IsRearranged n bh) (swap i j bh)
unfolding swap
swap-Gives n i j bh hi hj h =
    let (a, ea) = get_elem?-lt bh i (omega arith) in
    let (b, eb) = get_elem?-lt bh j (omega arith) in
    rw (ea, eb) (gives (swap_some-IsRearranged n i j a b bh hi hj ea eb))

-- A swap, and a move of its result that rearranges the heap under `heap`
then_moves :
    {M : Type 0} {heap : M → Heap} {n i j : ℕ} {bh : Heap} {f : Heap → Option M}
    → i < n
    → j < n
    → n ≤ length bh
    → ((ch : Heap) → n ≤ length ch → Gives (λ m. IsRearranged n ch (heap m)) (f ch))
    → Gives (λ m. IsRearranged n bh (heap m)) (bind (swap i j bh) f)
then_moves {M} {heap} {n} {i} {j} {bh} hi hj h k =
    Gives-bind (swap-Gives n i j bh hi hj h)
      λ ch r. Gives-map (k ch (omega (arith, r.same_length))) λ m s. IsRearranged-trans r s

-- The rise ends below its fuel.
pub up-Gives :
    (less : Less) (fuel n j : ℕ) (bh : Heap)
    → j < fuel
    → j < n
    → n ≤ length bh
    → Gives (IsRearranged n bh) (up less fuel j bh)
unfolding up
up-Gives less zero n j bh hf hj h = absurd (omega arith)
up-Gives less (suc fuel) n j bh hf hj h =
    Gives-if ((j - 1) / 2 == j) (λ top. gives (IsRearranged-refl n bh))
      (λ below.
        let parent : (j - 1) / 2 < j = ground arith in
        Gives-bind (less_at-Gives less j ((j - 1) / 2) bh (omega arith) (omega arith)) λ rises _.
          Gives-if rises
            (λ _.
              then_moves {heap = λ ch. ch} (omega arith) hj h
                λ ch hc. up-Gives less fuel n ((j - 1) / 2) ch (omega arith) (omega arith) hc)
            (λ _. gives (IsRearranged-refl n bh)))

least_child-Gives :
    (less : Less) (n j : ℕ) (bh : Heap)
    → j < n
    → n ≤ length bh
    → Gives (λ c. (j ≤ c) × (c < n)) (least_child less n j bh)
unfolding least_child
least_child-Gives less n j bh hj h =
    Gives-if (ltb (j + 1) n)
      (λ two.
        let right : j + 1 < n = ground arith in
        Gives-bind (less_at-Gives less (j + 1) j bh (omega arith) (omega arith))
          λ b _. gives (ground arith))
      (λ one. gives (omega arith, omega arith))

-- The fall ends below its fuel, whatever its start.
down-Gives :
    (less : Less) (fuel i n : ℕ) (bh : Heap)
    → n - i < fuel
    → n ≤ length bh
    → Gives (λ moved. IsRearranged n bh moved.0) (down less fuel i n bh)
unfolding down
down-Gives less zero i n bh hf h = absurd (omega arith)
down-Gives less (suc fuel) i n bh hf h =
    Gives-if (leb n (2 * i + 1)) (λ leaf. gives (IsRearranged-refl n bh))
      (λ inner.
        let child : 2 * i + 1 < n = ground arith in
        Gives-bind (least_child-Gives less n (2 * i + 1) bh child h) λ j hj.
          Gives-bind (less_at-Gives less j i bh (omega arith) (omega arith)) λ sinks _.
            Gives-if sinks
              (λ _.
                then_moves {heap = λ m. m.0} (omega arith) hj.1 h
                  λ ch hc. down-Gives less fuel j n ch (omega arith) hc)
              (λ _. gives (IsRearranged-refl n bh)))

pub settle-Gives :
    (less : Less) (i n : ℕ) (bh : Heap)
    → i < n
    → n ≤ length bh
    → Gives (IsRearranged n bh) (settle less i n bh)
unfolding settle
settle-Gives less i n bh hi h =
    Gives-bind (down-Gives less (suc n) i n bh (omega arith) h) λ moved r.
      Gives-if (ltb i moved.1) (λ _. gives r)
        (λ _.
          Gives-map
            (up-Gives less (suc i) n i moved.0 (omega arith) hi (omega (arith, r.same_length)))
            λ ch s. IsRearranged-trans r s)

pub fix-Gives :
    (less : Less) (i : ℕ) (bh : Heap)
    → i < length bh
    → Gives (IsRearranged (length bh) bh) (fix less (pos i) bh)
unfolding fix
fix-Gives less i bh h = settle-Gives less i (length bh) bh h (omega arith)

init_from-Gives :
    (less : Less) (i : ℕ) (bh : Heap) → Gives (IsRearranged (length bh) bh) (init_from less i bh)
unfolding init_from
init_from-Gives less zero bh = gives (IsRearranged-refl (length bh) bh)
init_from-Gives less (suc i) bh =
    Gives-bind (down-Gives less (suc (length bh)) i (length bh) bh (omega arith) (omega arith))
      λ moved r.
        Gives-map (init_from-Gives less i moved.0)
          λ ch s. IsRearranged-trans r (rw (sym r.same_length) s)

pub init-Gives : (less : Less) (bh : Heap) → Gives (IsRearranged (length bh) bh) (init less bh)
unfolding init
init-Gives less bh = init_from-Gives less (length bh / 2) bh
