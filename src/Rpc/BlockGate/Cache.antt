-- ===== src/Rpc/BlockGate/Cache.antt =====
-- The cache of BlockGate (v4/rpcutils/blockgate.go): what rotateIn keeps, and what the getters find.
use hc_data.Base.{
  ◌≡◌, refl, ap, ◌∙◌, ◌⊎◌, Bool, true, false, not, ◌&&◌, ◌||◌, Bool-cases, inl, inr, List, [], ◌∷◌,
  ◌++◌, Option, none, some, arith, ◌==◌, ==_iff, ==_refl, if◌then◌else◌, length, length-append,
}
use hc_data.Base.Int.{ℤ, pos, ltb_ℤ, beq_ℤ, beq_ℤ_iff}
use hc_data.Base.HashSet.{Hash}
use hc_data.Rpc.BlockGate.{
  signal_hash, signal_height, BlockGate, Pair, hash_in_queue, height_in_queue, drop_oldest,
  store_block, best_block, best_block_hash, block_of,
}

abbrev pub is_some : {A : Type 0} → Option A → Bool
is_some none = false
is_some (some _) = true

hash_in_queue-append :
    (q r : List Pair) (x : Hash)
    → hash_in_queue (q ++ r) x ≡ (hash_in_queue q x || hash_in_queue r x)
hash_in_queue-append [] r x = refl
hash_in_queue-append ((h, y) ∷ q) r x = ground (arith, hash_in_queue-append q r x)

or_assoc : (a b c : Bool) → (a || (b || c)) ≡ ((a || b) || c)
or_assoc a b c = ground arith

height_in_queue-append :
    (q r : List Pair) (h : ℤ)
    → height_in_queue (q ++ r) h ≡ (height_in_queue q h || height_in_queue r h)
height_in_queue-append [] r h = refl
height_in_queue-append ((k, y) ∷ q) r h =
    rw (height_in_queue-append q r h)
      (or_assoc (beq_ℤ k h) (height_in_queue q h) (height_in_queue r h))

append-cons :
    (q : List Pair) (p : Pair) → (o : Pair) × (rest : List Pair) × (q ++ p ∷ [] ≡ o ∷ rest)
append-cons [] p = (p, [], refl)
append-cons (o ∷ q) p = (o, q ++ p ∷ [], refl)

or-true : (b : Bool) → (b || true) ≡ true
or-true b = ground arith

empty_of_length : (xs : List Pair) → length xs ≡ 0 → xs ≡ []
empty_of_length [] h = refl
empty_of_length (x ∷ xs) h = absurd (omega arith)

beq_ℤ_refl : (h : ℤ) → beq_ℤ h h ≡ true
beq_ℤ_refl h = (beq_ℤ_iff h h).1 refl

-- A dropped pair leaves alone what is still in the queue.
kept_at_height :
    (o h : ℤ) (rest : List Pair)
    → height_in_queue rest h ≡ true
    → (beq_ℤ o h && not (height_in_queue rest o)) ≡ false
kept_at_height o h rest kept = elim (Bool-cases (beq_ℤ o h)) [
  | inl same ↦ let e : o ≡ h = (beq_ℤ_iff o h).0 same in rw (e, kept) (ground arith)
  | inr other ↦ rw other
]

kept_with_hash :
    (x y : Hash) (rest : List Pair)
    → hash_in_queue rest y ≡ true
    → (x == y && not (hash_in_queue rest x)) ≡ false
kept_with_hash x y rest kept = elim (Bool-cases (x == y)) [
  | inl same ↦ let e : x ≡ y = (==_iff x y).0 same in rw (e, kept) (ground arith)
  | inr other ↦ rw other
]

module _ {Block : Type 0} where
  -- The maps hold exactly the heights and the hashes of the queue, and the queue is within the capacity,
  -- or empty.
  pub record IsCached (g : BlockGate Block) : Type 0 where
    pub heights : (h : ℤ) → is_some (g.hash_at_height h) ≡ height_in_queue g.expire_queue h
    pub hashes : (x : Hash) → is_some (g.block_with_hash x) ≡ hash_in_queue g.expire_queue x
    pub room : (g.expire_queue ≡ []) ⊎ (ltb_ℤ g.cap (pos (length g.expire_queue)) ≡ false)

  -- Dropping the oldest pair of the queue from the maps.
  drop_oldest-heights :
      (o : ℤ) (x : Hash) (rest : List Pair) (g : BlockGate Block)
      → ((h : ℤ) → is_some (g.hash_at_height h) ≡ height_in_queue ((o, x) ∷ rest) h)
      → (h : ℤ)
      → is_some ((drop_oldest ((o, x) ∷ rest) g).hash_at_height h) ≡ height_in_queue rest h
  unfolding drop_oldest
  drop_oldest-heights o x rest g known h = elim (Bool-cases (beq_ℤ o h)) [
    | inl same ↦
        let e : o ≡ h = (beq_ℤ_iff o h).0 same in
        rw (same, e) (ground (arith, known h, beq_ℤ_refl h))
    | inr other ↦ rw other (ground (arith, known h))
  ]

  drop_oldest-hashes :
      (o : ℤ) (x : Hash) (rest : List Pair) (g : BlockGate Block)
      → ((y : Hash) → is_some (g.block_with_hash y) ≡ hash_in_queue ((o, x) ∷ rest) y)
      → (y : Hash)
      → is_some ((drop_oldest ((o, x) ∷ rest) g).block_with_hash y) ≡ hash_in_queue rest y
  unfolding drop_oldest
  drop_oldest-hashes o x rest g known y = elim (Bool-cases (x == y)) [
    | inl same ↦
        let e : x ≡ y = (==_iff x y).0 same in rw (same, e) (ground (arith, known y, ==_refl y))
    | inr other ↦ rw other (ground (arith, known y))
  ]

  module _ (height : ℤ) (hash : Hash) (block : Block) (g : BlockGate Block) where
    abbrev pub pushed : List Pair
    pushed = g.expire_queue ++ (height, hash) ∷ []

    -- The state in which rotateIn tests the capacity.
    abbrev pub written : BlockGate Block
    written = record g {
      height = height;
      hash_at_height = λ h. if beq_ℤ height h then some hash else g.hash_at_height h;
      block_with_hash = λ x. if hash == x then some block else g.block_with_hash x;
      expire_queue = pushed;
    }

  module _ (height : ℤ) (hash : Hash) (block : Block) (g : BlockGate Block)
      (cached : IsCached g) where
    written-heights :
        (h : ℤ)
        → is_some ((written height hash block g).hash_at_height h)
          ≡ height_in_queue (pushed height hash block g) h
    written-heights h =
        rw (height_in_queue-append g.expire_queue ((height, hash) ∷ []) h)
          (elim (Bool-cases (beq_ℤ height h)) [
            | inl same ↦ rw same (ground arith)
            | inr other ↦ rw other (ground (arith, cached.heights h))
          ])

    written-hashes :
        (x : Hash)
        → is_some ((written height hash block g).block_with_hash x)
          ≡ hash_in_queue (pushed height hash block g) x
    written-hashes x =
        rw (hash_in_queue-append g.expire_queue ((height, hash) ∷ []) x)
          (elim (Bool-cases (hash == x)) [
            | inl same ↦ rw same (ground arith)
            | inr other ↦ rw other (ground (arith, cached.hashes x))
          ])

    -- Within the capacity nothing is dropped.
    pub store_block-within :
        ltb_ℤ g.cap (pos (length (pushed height hash block g))) ≡ false
        → store_block height hash block g ≡ record (written height hash block g) {
          pending = g.pending ++ signal_height height ∷ signal_hash hash ∷ [];
        }
    unfolding store_block
    store_block-within fits = rw fits

    -- Beyond it the oldest pair is dropped.
    pub store_block-beyond :
        (o : ℤ) (x : Hash) (rest : List Pair)
        → ltb_ℤ g.cap (pos (length (pushed height hash block g))) ≡ true
        → (pushed height hash block g) ≡ (o, x) ∷ rest
        → store_block height hash block g
          ≡ record (drop_oldest
              ((o, x) ∷ rest)
              (record (written height hash block g) { expire_queue = (o, x) ∷ rest })) {
                pending = g.pending ++ signal_height height ∷ signal_hash hash ∷ [];
              }
    unfolding store_block
    store_block-beyond o x rest over split = rw (over, split)

    -- updateToBlock keeps the maps and the queue in step, and the queue within the capacity.
    pub store_block-IsCached : IsCached (store_block height hash block g)
    unfolding drop_oldest
    store_block-IsCached =
        elim (Bool-cases (ltb_ℤ g.cap (pos (length (pushed height hash block g))))) [
          | inr fits ↦
              rw (store_block-within fits)
                (record { heights = written-heights; hashes = written-hashes; room = inr fits })
          | inl over ↦
              let ((o, x), rest, split) = append-cons g.expire_queue (height, hash) in
              let same_size : length rest ≡ length g.expire_queue = omega (
                arith,
                length-append g.expire_queue ((height, hash) ∷ []),
                ap (λ (l : List Pair). length l) split,
              ) in
              rw (store_block-beyond o x rest over split) (record {
                heights =
                    drop_oldest-heights o x rest
                      (record (written height hash block g) { expire_queue = (o, x) ∷ rest })
                      (λ h. written-heights h ∙ ap (λ l. height_in_queue l h) split);
                hashes =
                    drop_oldest-hashes o x rest
                      (record (written height hash block g) { expire_queue = (o, x) ∷ rest })
                      (λ y. written-hashes y ∙ ap (λ l. hash_in_queue l y) split);
                room = elim cached.room [
                  | inl none_held ↦ inl (empty_of_length rest (same_size ∙ ap length none_held))
                  | inr few ↦ inr (rw same_size few)
                ];
              })
        ]

    -- With room for a block, the newest pair is among those that stay.
    newest_stays :
        (o : ℤ) (x : Hash) (rest : List Pair)
        → ltb_ℤ (pos 0) g.cap ≡ true
        → ltb_ℤ g.cap (pos (length (pushed height hash block g))) ≡ true
        → (pushed height hash block g) ≡ (o, x) ∷ rest
        → (height_in_queue rest height ≡ true) × (hash_in_queue rest hash ≡ true)
    newest_stays o x rest positive over split = go g.expire_queue over split
      where
        go :
            (q : List Pair)
            → ltb_ℤ g.cap (pos (length (q ++ (height, hash) ∷ []))) ≡ true
            → q ++ (height, hash) ∷ [] ≡ (o, x) ∷ rest
            → (height_in_queue rest height ≡ true) × (hash_in_queue rest hash ≡ true)
        go [] one_over e = absurd (ground arith)
        go (p ∷ q) one_over e =
            let tail : q ++ (height, hash) ∷ [] ≡ rest = ground arith in
            (
              rw (← tail, height_in_queue-append q ((height, hash) ∷ []) height, beq_ℤ_refl height)
                  (or-true _),
              rw (← tail, hash_in_queue-append q ((height, hash) ∷ []) hash, ==_refl hash)
                  (or-true _),
            )

    -- Where the capacity is at least one, the block just stored is the best block: every getter finds
    -- it, and none reports an error.
    pub store_block_found :
        ltb_ℤ (pos 0) g.cap ≡ true
        → (best_block_hash (store_block height hash block g) ≡ (hash, height, none))
          × (best_block (store_block height hash block g) ≡ (some block, none))
          × (block_of hash (store_block height hash block g) ≡ (some block, none))
    unfolding best_block_hash best_block block_of drop_oldest
    store_block_found positive =
        elim (Bool-cases (ltb_ℤ g.cap (pos (length (pushed height hash block g))))) [
          | inr fits ↦
              rw (store_block-within fits, beq_ℤ_refl height, ==_refl hash) (refl, refl, refl)
          | inl over ↦
              let ((o, x), rest, split) = append-cons g.expire_queue (height, hash) in
              let (kept_height, kept_hash) = newest_stays o x rest positive over split in
              rw
                (
                  store_block-beyond o x rest over split,
                  kept_at_height o height rest kept_height,
                  beq_ℤ_refl height,
                  kept_with_hash x hash rest kept_hash,
                  ==_refl hash,
                )
                (refl, refl, refl)
        ]
