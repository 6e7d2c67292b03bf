-- ===== src/ApiCache/Heap/Kept/Ends.antt =====
-- heap.Push and heap.Remove, as v4/api/types/apicache.go uses them, against the number of blocks of each
-- kind.
use hc_data.Base.{
  ℕ, suc, ◌+◌, ◌-◌, ◌<◌, ◌≡◌, ap, sym, ◌∙◌, Bool, Bool-cases, inl, inr, [], ◌∷◌, ◌++◌, some, arith,
  ◌==◌, length, get_elem?, take, length-append, length-take, get_elem?-lt, get_elem?-some,
  get_elem?-append, get_elem?-append_self, get_elem?-take, take-suc, take-all, ltb, ltb→lt,
  ltb_false→le, length-set, get_elem?-set_self, set,
}
use hc_data.Base.Int.{pos}
use hc_data.ApiCache.{Summary, CachedBlock, Less}
use hc_data.ApiCache.Heap.{Heap, swap, push, pop, remove}
use hc_data.ApiCache.Heap.Kept.{
  Gives, gives, Gives-bind, Gives-map, Gives-if, one, tally, tally-append, IsPlaced, IsRearranged,
}
use hc_data.ApiCache.Heap.Kept.Moves.{settle-Gives, up-Gives, swap_some-IsRearranged}

append-IsPlaced :
    (b : CachedBlock) (bh : Heap)
    → b.heap_idx ≡ pos (length bh)
    → IsPlaced bh
    → IsPlaced (bh ++ b ∷ [])
append-IsPlaced b bh hb h k c e = elim (Bool-cases (ltb k (length bh))) [
  | inl inside ↦ h k c (sym (get_elem?-append bh (b ∷ []) k (ltb→lt _ _ inside)) ∙ e)
  | inr last ↦
      let within = get_elem?-some (bh ++ b ∷ []) k c e in
      let at_end : length bh ≡ k =
        omega (arith, ltb_false→le _ _ last, length-append bh (b ∷ [])) in
      let found : some b ≡ some c =
        sym (get_elem?-append_self bh [] b) ∙ ap (get_elem? (bh ++ b ∷ [])) at_end ∙ e in
      ground arith
]

-- A block pushed
pub record IsPushed (b : CachedBlock) (bh ch : Heap) : Type 0 where
  pub longer : length ch ≡ length bh + 1
  pub counted : (p : Summary → Bool) → tally p ch ≡ tally p bh + one p b.summary
  pub placed : IsPlaced bh → IsPlaced ch

pub push-Gives :
    (less : Less) (b : CachedBlock) (bh : Heap)
    → b.heap_idx ≡ pos (length bh)
    → Gives (IsPushed b bh) (push less b bh)
unfolding push tally
push-Gives less b bh hb =
    let len = length-append bh (b ∷ []) in
    Gives-map
      (up-Gives less (suc (length bh)) (length bh + 1) (length bh) (bh ++ b ∷ []) (omega arith)
        (omega arith) (omega (arith, len)))
      λ ch r. record {
        longer = omega (arith, r.same_length, len);
        counted = λ p. omega (arith, r.same_tally p, tally-append p bh (b ∷ []));
        placed = λ h. r.keeps_placed (append-IsPlaced b bh hb h);
      }

-- A block removed
pub record IsRemoved (s : Summary) (bh ch : Heap) : Type 0 where
  pub shorter : length ch + 1 ≡ length bh
  pub counted : (p : Summary → Bool) → tally p ch + one p s ≡ tally p bh
  pub placed : IsPlaced bh → IsPlaced ch

pop-Gives :
    (b : CachedBlock) (bh : Heap)
    → get_elem? bh (length bh - 1) ≡ some b
    → Gives (IsRemoved b.summary bh) (pop bh)
unfolding pop tally
pop-Gives b bh e =
    let within = get_elem?-some bh (length bh - 1) b e in
    let n = length bh - 1 in
    let whole : bh ≡ take n bh ++ b ∷ [] =
      sym (take-all (suc n) bh (omega arith)) ∙ take-suc n bh b e in
    Gives-if (length bh == 0) (λ none_left. absurd (ground arith))
      (λ some_left. gives record {
        shorter = omega (arith, length-take n bh);
        counted = λ p. omega (arith, ap (tally p) whole, tally-append p (take n bh) (b ∷ []));
        placed = λ h k c found.
            let inside = get_elem?-some (take n bh) k c found in
            h k c (sym (get_elem?-take n bh k (omega (arith, length-take n bh))) ∙ found);
      })

-- The swap with the last entry brings the entry at i there.
swap_last :
    (i : ℕ) (b : CachedBlock) (bh : Heap)
    → get_elem? bh i ≡ some b
    → Gives
        (λ ch.
          IsRearranged (length bh) bh ch
          × (get_elem? ch (length bh - 1) ≡ some (record b { heap_idx = pos (length bh - 1) })))
        (swap i (length bh - 1) bh)
unfolding swap
swap_last i b bh e =
    let hi = get_elem?-some bh i b e in
    let n = length bh - 1 in
    let (c, ec) = get_elem?-lt bh n (omega arith) in
    rw (e, ec)
      (gives (
        swap_some-IsRearranged (length bh) i n b c bh hi (omega arith) e ec,
        get_elem?-set_self n (record b { heap_idx = pos n })
            (set i (record c { heap_idx = pos i }) bh)
            (omega (arith, length-set i (record c { heap_idx = pos i }) bh)),
      ))

-- Removal at an index takes out the block that stood there.
pub remove-Gives :
    (less : Less) (i : ℕ) (b : CachedBlock) (bh : Heap)
    → get_elem? bh i ≡ some b
    → Gives (IsRemoved b.summary bh) (remove less i bh)
unfolding remove
remove-Gives less i b bh e =
    let hi = get_elem?-some bh i b e in
    let n = length bh - 1 in
    Gives-if (n == i)
      (λ last.
        let at_end : i ≡ n = ground arith in pop-Gives b bh (sym (ap (get_elem? bh) at_end) ∙ e))
      (λ inner.
        let before : i < n = ground arith in
        Gives-bind (swap_last i b bh e) λ ch (r, there).
          Gives-bind (settle-Gives less i n ch before (omega (arith, r.same_length))) λ dh s.
            let len : length dh ≡ length bh = s.same_length ∙ r.same_length in
            let found : get_elem? dh (length dh - 1) ≡ some (record b { heap_idx = pos n }) =
              ap (λ l. get_elem? dh (l - 1)) len ∙ s.same_above n (omega arith) ∙ there in
            Gives-map (pop-Gives (record b { heap_idx = pos n }) dh found) λ eh t. record {
              shorter = t.shorter ∙ len;
              counted = λ p. t.counted p ∙ s.same_tally p ∙ r.same_tally p;
              placed = λ h. t.placed (s.keeps_placed (r.keeps_placed h));
            })
