-- ===== src/Distr/Halos/Send.antt =====
-- The cells that are sent are the periodic images of the cells that are received.
use aphros_test.Distr.Halos.Periodic.{Above, IsPeriodicImage, get_periodic-IsPeriodicImage}
use aphros_test.Geom.Block.Order.{AllPositive}
use aphros_test.Base.{
  ◌^◌, ℕ, zero, suc, ◌+◌, ◌<◌, ◌≡◌, refl, sym, ap, subst, ◌∙◌, Bool, true, false, Bool-cases, inl,
  inr, List, [], ◌∷◌, Option, none, some, length, ◌==◌, if◌then◌else◌, get_elem?, arith,
  key_not_found, assertion, out_of_range, Result, ok, err, ◌>>=◌,
}
use aphros_test.Distr.Halos.Grown.{Grown, contained}
use aphros_test.Distr.Halos.{
  Block, LocalCell, get_periodic, count_blocks, cell_to_block, block_at, received_midx, local_cells,
  get_send_cells,
}
use aphros_test.Geom.Index.Bijection.{IsIndex, midx-idx, is_inside_parts}
use aphros_test.Geom.Index.{get_idx, get_midx, offsets, size, is_inside}
use aphros_test.Geom.Vect.{prod, MIdx, add, of_sizes, SameDim}

-- A block whose indexer holds its inner cells, in a given number of dimensions.
pub record IsBlock (dim : ℕ) (b : Block) : Type 0 where
  pub layers : ℕ
  pub index : IsIndex b.indexc
  pub small : prod b.indexc.sizes < 2 ^ 63
  pub same_dim : length b.indexc.sizes ≡ dim
  pub grown : Grown layers b.incells.begin b.incells.sizes b.indexc.begin b.indexc.sizes

covers :
    (dim : ℕ) (b : Block) (w : MIdx)
    → IsBlock dim b
    → SameDim w b.indexc.sizes
    → is_inside b.incells w ≡ true
    → is_inside b.indexc w ≡ true
unfolding is_inside
covers dim b w v d h =
    let (low, high) =
      contained v.layers b.incells.begin b.incells.sizes b.indexc.begin b.indexc.sizes w v.grown d
        (is_inside_parts b.incells w h) in
    ground (arith, low, high)

-- A cell that is an inner cell of exactly one block.
abbrev pub IsOwned : List Block → MIdx → Type 0
IsOwned blocks w =
    (ib : ℕ) × (b : Block) × (get_elem? blocks ib ≡ some b)
    × (is_inside b.incells w ≡ true)
    × ((jb : ℕ) (c : Block) → get_elem? blocks jb ≡ some c → is_inside c.incells w ≡ true → jb ≡ ib)

count_none :
    (w : MIdx) (ib : ℕ) (blocks : List Block) (cnt ib_last : ℕ)
    → ((jb : ℕ) (c : Block) → get_elem? blocks jb ≡ some c → is_inside c.incells w ≡ false)
    → count_blocks w ib blocks cnt ib_last ≡ (cnt, ib_last)
unfolding count_blocks
count_none w ib [] cnt ib_last h = refl
count_none w ib (b ∷ blocks) cnt ib_last h =
    ap
      (λ (x : Bool).
        count_blocks w (ib + 1) blocks (if x then cnt + 1 else cnt) (if x then ib else ib_last))
      (h 0 b refl)
    ∙ count_none w (ib + 1) blocks cnt ib_last (λ jb c. h (suc jb) c)

count_one :
    (w : MIdx) (ib : ℕ) (blocks : List Block) (ib_last k : ℕ) (b : Block)
    → get_elem? blocks k ≡ some b
    → is_inside b.incells w ≡ true
    → ((jb : ℕ) (c : Block) → get_elem? blocks jb ≡ some c → is_inside c.incells w ≡ true → jb ≡ k)
    → count_blocks w ib blocks 0 ib_last ≡ (1, ib + k)
unfolding count_blocks
count_one w ib [] ib_last k b e h u = absurd (cc)
count_one w ib (x ∷ blocks) ib_last zero b e h u =
    ap
      (λ (y : Option Block).
        count_blocks w (ib + 1) blocks (if inside y then 1 else 0)
          (if inside y then ib else ib_last))
      e
    ∙ ap
        (λ (y : Bool).
          count_blocks w (ib + 1) blocks (if y then 1 else 0) (if y then ib else ib_last))
        h
    ∙ count_none w (ib + 1) blocks 1 ib (λ jb c q. elim (Bool-cases (is_inside c.incells w)) [
      | inl y ↦ absurd (omega (arith, u (suc jb) c q y))
      | inr y ↦ y
    ])
    ∙ ap (λ (n : ℕ). (1, n)) (omega arith)
  where
    inside : Option Block → Bool
    inside none = false
    inside (some c) = is_inside c.incells w
count_one w ib (x ∷ blocks) ib_last (suc k) b e h u = elim (Bool-cases (is_inside x.incells w)) [
  | inl y ↦ absurd (omega (arith, u 0 x refl y))
  | inr y ↦
      ap
        (λ (y : Bool).
          count_blocks w (ib + 1) blocks (if y then 1 else 0) (if y then ib else ib_last))
        y
      ∙ count_one w (ib + 1) blocks ib_last k b e h (λ jb c q r. omega (arith, u (suc jb) c q r))
      ∙ ap (λ (n : ℕ). (1, n)) (omega arith)
]

cell_to_block-IsOwned :
    (blocks : List Block) (w : MIdx) → (o : IsOwned blocks w) → cell_to_block blocks w ≡ ok o.0
unfolding cell_to_block
cell_to_block-IsOwned blocks w (k, b, e, h, u) =
    ap
      (λ (r : ℕ × ℕ).
        if r.0 == 0 then err key_not_found else if r.0 == 1 then ok r.1 else err assertion)
      (count_one w 0 blocks 0 k b e h u)
    ∙ ap (λ (n : ℕ). ok n) (omega arith)

SameDim-length : (w : MIdx) (ss : List ℕ) → length w ≡ length ss → SameDim w ss
SameDim-length [] [] h = tt
SameDim-length [] (s ∷ ss) h = absurd (omega (arith, h))
SameDim-length (x ∷ w) [] h = absurd (omega (arith, h))
SameDim-length (x ∷ w) (s ∷ ss) h = SameDim-length w ss (omega (arith, h))

length-get_periodic :
    (w : MIdx) (gs : List ℕ) → length w ≡ length gs → length (get_periodic w gs) ≡ length gs
unfolding get_periodic
length-get_periodic [] [] h = refl
length-get_periodic [] (g ∷ gs) h = absurd (omega (arith, h))
length-get_periodic (x ∷ w) [] h = absurd (omega (arith, h))
length-get_periodic (x ∷ w) (g ∷ gs) h = omega (arith, length-get_periodic w gs (omega (arith, h)))

length-shift :
    (b : MIdx) (ss : List ℕ) (i : ℕ)
    → SameDim b ss
    → length (add b (of_sizes (offsets ss i))) ≡ length ss
unfolding add offsets
length-shift [] [] i h = refl
length-shift [] (s ∷ ss) i h = absurd h
length-shift (x ∷ b) [] i h = absurd h
length-shift (x ∷ b) (s ∷ ss) i h = omega (arith, length-shift b ss _ h)

-- The multi-index of a received cell, by the indexer of its block.
abbrev pub place : Block → LocalCell → MIdx
place b r = get_midx b.indexc r.cell

-- A received cell at most sixteen meshes away in front, with a block of its own, and whose image is an
-- inner cell of exactly one block.
abbrev pub IsReceivable : List Block → List ℕ → LocalCell → Type 0
IsReceivable blocks globalsize r =
    (b : Block) × (get_elem? blocks r.block ≡ some b)
    × Above globalsize (place b r)
    × ((u : MIdx) → IsPeriodicImage globalsize (place b r) u → IsOwned blocks u)

abbrev pub AllReceivable : List Block → List ℕ → List LocalCell → Type 0
AllReceivable blocks globalsize [] = Unit {0}
AllReceivable blocks globalsize (r ∷ recv) =
    IsReceivable blocks globalsize r × AllReceivable blocks globalsize recv

-- A sent cell is the periodic image of a received one: an inner cell of its block, with an index below
-- the size of the block's indexer.
abbrev pub IsImage : List Block → List ℕ → LocalCell → LocalCell → Type 0
IsImage blocks globalsize r s =
    (b : Block) × (c : Block) × (u : MIdx) × (get_elem? blocks r.block ≡ some b)
    × (get_elem? blocks s.block ≡ some c)
    × IsPeriodicImage globalsize (place b r) u
    × (is_inside c.incells u ≡ true)
    × (s.cell < size c.indexc)
    × (get_midx c.indexc s.cell ≡ u)

abbrev pub Matches : List Block → List ℕ → List LocalCell → List LocalCell → Type 0
Matches blocks globalsize [] [] = Unit {0}
Matches blocks globalsize (r ∷ recv) (s ∷ send) =
    IsImage blocks globalsize r s × Matches blocks globalsize recv send
Matches blocks globalsize _ _ = ⊥

abbrev pub AllBlocks : ℕ → List Block → Type 0
AllBlocks dim [] = Unit {0}
AllBlocks dim (b ∷ blocks) = IsBlock dim b × AllBlocks dim blocks

get_elem-AllBlocks :
    (dim : ℕ) (blocks : List Block) (k : ℕ) (b : Block)
    → AllBlocks dim blocks
    → get_elem? blocks k ≡ some b
    → IsBlock dim b
get_elem-AllBlocks dim [] k b h e = absurd (cc)
get_elem-AllBlocks dim (x ∷ blocks) zero b h e =
    subst (λ (o : Option Block). elim o [ none ↦ Unit {0} | some c ↦ IsBlock dim c ]) e h.0
get_elem-AllBlocks dim (x ∷ blocks) (suc k) b h e = get_elem-AllBlocks dim blocks k b h.1 e

block_at_lem :
    (blocks : List Block) (k : ℕ) (b : Block)
    → get_elem? blocks k ≡ some b
    → block_at blocks k ≡ ok b
block_at_lem blocks k b e =
    ap
      (λ (o : Option Block). elim o as (λ x. Result Block) [
        | none ↦ err out_of_range
        | some c ↦ ok c
      ])
      e

length-place : {dim : ℕ} (b : Block) (r : LocalCell) → IsBlock dim b → length (place b r) ≡ dim
unfolding get_midx
length-place b r v = length-shift b.indexc.begin b.indexc.sizes r.cell v.index.same_dim ∙ v.same_dim

module _ (blocks : List Block) (globalsize : List ℕ) (h : AllBlocks (length globalsize) blocks)
    (positive : AllPositive globalsize) where
  -- The cell that `GetPeriodic` gives, and the block that owns it.
  image : (r : LocalCell) → IsReceivable blocks globalsize r → MIdx
  image r v = get_periodic (place v.0 r) globalsize

  owner : (r : LocalCell) (v : IsReceivable blocks globalsize r) → IsOwned blocks (image r v)
  unfolding image
  owner r (b, e, above, owned) =
      owned (get_periodic (place b r) globalsize)
        (get_periodic-IsPeriodicImage globalsize (place b r) positive above)

  sent-IsImage :
      (r : LocalCell) (v : IsReceivable blocks globalsize r) (o : IsOwned blocks (image r v))
      → (c : Block) × (get_elem? blocks o.0 ≡ some c)
        × IsImage blocks globalsize r (record { block = o.0; cell = get_idx c.indexc (image r v) })
  unfolding image
  sent-IsImage r (b, e, above, owned) (k, c, f, inside, unique) =
      let vb = get_elem-AllBlocks (length globalsize) blocks r.block b h e in
      let vc = get_elem-AllBlocks (length globalsize) blocks k c h f in
      let u : MIdx = get_periodic (place b r) globalsize in
      let dim : length u ≡ length globalsize =
        length-get_periodic (place b r) globalsize (length-place b r vb) in
      let dims = SameDim-length u c.indexc.sizes (dim ∙ sym vc.same_dim) in
      let (below, back) =
        midx-idx c.indexc u vc.index vc.small dims
          (covers (length globalsize) c u vc dims inside) in
      (
        c,
        f,
        (
          b,
          c,
          u,
          e,
          f,
          get_periodic-IsPeriodicImage globalsize (place b r) positive above,
          inside,
          below,
          back,
        ),
      )

  -- What the two loops of `GetSendCells` give.
  sent :
      (recv : List LocalCell)
      → AllReceivable blocks globalsize recv
      → (ws : List MIdx) × (send : List LocalCell) × (received_midx blocks globalsize recv ≡ ok ws)
        × (local_cells blocks ws ≡ ok send)
        × Matches blocks globalsize recv send
  unfolding received_midx local_cells image
  sent [] v = ([], [], refl, refl, tt)
  sent (r ∷ recv) (v, vs) =
      let (ws, send, p, q, m) = sent recv vs in
      let o = owner r v in
      let (c, f, i) = sent-IsImage r v o in
      let w : MIdx = get_periodic (place v.0 r) globalsize in
      (
        w ∷ ws,
        record { block = o.0; cell = get_idx c.indexc w } ∷ send,
        ap
              (λ (x : Result Block). x >>= λ b. received_midx blocks globalsize recv >>= λ rest.
                ok (get_periodic (place b r) globalsize ∷ rest))
              (block_at_lem blocks r.block v.0 v.1)
            ∙ ap (λ (x : Result (List MIdx)). x >>= λ rest. ok (w ∷ rest)) p,
        ap
              (λ (x : Result ℕ). x >>= λ ib. block_at blocks ib >>= λ b.
                local_cells blocks ws >>= λ rest.
                ok (record { block = ib; cell = get_idx b.indexc w } ∷ rest))
              (cell_to_block-IsOwned blocks w o)
            ∙ ap
                (λ (x : Result Block). x >>= λ b. local_cells blocks ws >>= λ rest.
                  ok (record { block = o.0; cell = get_idx b.indexc w } ∷ rest))
                (block_at_lem blocks o.0 c f)
            ∙ ap
                (λ (x : Result (List LocalCell)).
                  x >>= λ rest. ok (record { block = o.0; cell = get_idx c.indexc w } ∷ rest))
                q,
        (i, m),
      )

  -- `GetSendCells` gives one cell for each received cell, in the same order: an inner cell of its
  -- block, with an index below the size of the block's indexer, whose multi-index is the periodic
  -- image of the received cell's: the cell of the mesh that is a whole number of meshes apart in each
  -- direction. The sizes of the mesh are positive, the indexers hold the inner cells of their blocks
  -- and have less than 2^63 cells, a received cell is at most sixteen meshes away in front, and its
  -- image is an inner cell of exactly one block.
  pub get_send_cells-Matches :
      (recv : List LocalCell)
      → AllReceivable blocks globalsize recv
      → (send : List LocalCell) × (get_send_cells blocks globalsize recv ≡ ok send)
        × Matches blocks globalsize recv send
  unfolding get_send_cells
  get_send_cells-Matches recv v =
      let (ws, send, p, q, m) = sent recv v in
      (send, ap (λ (x : Result (List MIdx)). x >>= λ y. local_cells blocks y) p ∙ q, m)
