-- ===== src/Distr/Halos.antt =====
-- `CommManager` of distr/comm_manager_seq.ipp on one rank: which cells round the blocks are
-- received, and which inner cells are sent for them. The sizes of the mesh are not negative.
pub mod Grown
pub mod Periodic
pub mod Stencils
pub mod Send
pub mod Receive
pub mod Region
pub mod Exchange
pub mod Matched
use aphros_test.Base.{
  ℕ, zero, suc, ◌+◌, ◌*◌, ◌%◌, Bool, true, false, not, ◌&&◌, ◌||◌, List, [], ◌∷◌, ◌++◌, map, Option,
  none, some, ◌==◌, ltb, if◌then◌else◌, get_elem?, key_not_found, assertion, out_of_range, Result,
  ok, err, ◌>>=◌,
}
use aphros_test.Base.Int.{ℤ, pos, negsuc, ◌+ℤ◌, eqb_ℤ, ltb_ℤ, leb_ℤ}
use aphros_test.Geom.Block.{all_indices}
use aphros_test.Geom.Index.{Index, get_idx, get_midx, size, is_inside}
use aphros_test.Geom.Vect.{MIdx, add, prod}

-- `CommManager::Block`: the inner cells, and the indexer of the cells round them.
pub record Block : Type 0 where
  pub incells : Index
  pub indexc : Index

pub record LocalCell : Type 0 where
  pub block : ℕ
  pub cell : ℕ

-- `IsValid`
unfoldable pub is_valid : MIdx → List ℕ → List Bool → Bool
is_valid (x ∷ w) (g ∷ globalsize) (p ∷ is_periodic) =
    (p || (leb_ℤ (pos 0) x && ltb_ℤ x (pos g))) && is_valid w globalsize is_periodic
is_valid _ _ _ = true

abbrev pub negated : ℕ → ℤ
negated zero = pos 0
negated (suc n) = negsuc n

-- `%` of signed integers.
abbrev pub rem : ℤ → ℕ → ℤ
rem (pos a) n = pos (a % n)
rem (negsuc a) n = negated (suc a % n)

-- `GetPeriodic`
unfoldable pub get_periodic : MIdx → List ℕ → MIdx
unfolding ◌+ℤ◌
get_periodic (x ∷ w) (g ∷ globalsize) = rem (x +ℤ pos (g * 16)) g ∷ get_periodic w globalsize
get_periodic _ _ = []

-- `nnz`
unfoldable pub nnz : MIdx → ℕ
nnz [] = 0
nnz (x ∷ dw) = (if eqb_ℤ x (pos 0) then 0 else 1) + nnz dw

-- `seen_cells.insert(c)`, in ascending order.
unfoldable pub insert_cell : ℕ → List ℕ → List ℕ
insert_cell c [] = c ∷ []
insert_cell c (d ∷ seen) =
    let rest = insert_cell c seen in
    if c == d then d ∷ seen else if ltb c d then c ∷ d ∷ seen else d ∷ rest

-- The block of `offsets`, from -halos to halos in each component.
abbrev pub repeat {ℓ} : {A : Type ℓ} → ℕ → A → List A
repeat zero x = []
repeat (suc n) x = x ∷ repeat n x

abbrev pub offsets_block : ℕ → ℕ → Index
offsets_block dim halos = record {
  begin = repeat dim (negated halos);
  sizes = repeat dim (2 * halos + 1);
}

abbrev pub indices : Index → Result (List MIdx)
indices ix = all_indices (suc (prod ix.sizes)) ix

-- The settings that the loops of `GetRecvCells` share.
pub record Stencil : Type 0 where
  pub dim : ℕ
  pub halos : ℕ
  pub full : Bool
  pub globalsize : List ℕ
  pub is_periodic : List Bool

-- Whether the cell `wc + dw` is received.
unfoldable pub is_received : Stencil → Block → MIdx → MIdx → Bool
unfolding nnz is_valid is_inside add
is_received s b wc dw =
    (s.full || (nnz dw == 1))
    && (is_valid (add wc dw) s.globalsize s.is_periodic && not (is_inside b.incells (add wc dw)))

-- The loop over the offsets from one cell.
unfoldable pub over_offsets : Stencil → Block → MIdx → List MIdx → List ℕ → List ℕ
unfolding is_received insert_cell get_idx add
over_offsets s b wc [] seen = seen
over_offsets s b wc (dw ∷ dws) seen =
    over_offsets s b wc dws
      (if is_received s b wc dw then insert_cell (get_idx b.indexc (add wc dw)) seen else seen)

-- The loop over the inner cells.
unfoldable pub over_cells : Stencil → Block → List MIdx → List MIdx → List ℕ → List ℕ
unfolding over_offsets
over_cells s b [] dws seen = seen
over_cells s b (wc ∷ wcs) dws seen = over_cells s b wcs dws (over_offsets s b wc dws seen)

-- The cells that one block receives.
unfoldable pub block_cells : Stencil → Block → Result (List ℕ)
unfolding over_cells all_indices prod
block_cells s b = indices b.incells >>= λ wcs.
    indices (offsets_block s.dim s.halos) >>= λ dws. ok (over_cells s b wcs dws [])

-- `GetRecvCells`, for the blocks from the number `ib` on.
unfoldable pub get_recv_cells : Stencil → ℕ → List Block → Result (List LocalCell)
unfolding block_cells
get_recv_cells s ib [] = ok []
get_recv_cells s ib (b ∷ blocks) = block_cells s b >>= λ cells.
    get_recv_cells s (ib + 1) blocks >>= λ rest.
    ok (map (λ c. record { block = ib; cell = c }) cells ++ rest)

abbrev pub block_at : List Block → ℕ → Result Block
block_at blocks ib = elim (get_elem? blocks ib) [ none ↦ err out_of_range | some b ↦ ok b ]

-- The loop of `cell_to_block`: how many blocks from the number `ib` on hold a cell, and the last.
unfoldable pub count_blocks : MIdx → ℕ → List Block → ℕ → ℕ → ℕ × ℕ
unfolding is_inside
count_blocks w ib [] cnt ib_last = (cnt, ib_last)
count_blocks w ib (b ∷ blocks) cnt ib_last =
    let here = is_inside b.incells w in
    count_blocks w (ib + 1) blocks (if here then cnt + 1 else cnt) (if here then ib else ib_last)

-- `cell_to_block`
unfoldable pub cell_to_block : List Block → MIdx → Result ℕ
unfolding count_blocks
cell_to_block blocks w =
    let r = count_blocks w 0 blocks 0 0 in
    if r.0 == 0 then err key_not_found else if r.0 == 1 then ok r.1 else err assertion

-- The multi-indices of the inner cells to receive.
unfoldable pub received_midx : List Block → List ℕ → List LocalCell → Result (List MIdx)
unfolding get_periodic get_midx
received_midx blocks globalsize [] = ok []
received_midx blocks globalsize (bc ∷ recv) = block_at blocks bc.block >>= λ b.
    received_midx blocks globalsize recv >>= λ rest.
    ok (get_periodic (get_midx b.indexc bc.cell) globalsize ∷ rest)

unfoldable pub local_cells : List Block → List MIdx → Result (List LocalCell)
unfolding cell_to_block get_idx
local_cells blocks [] = ok []
local_cells blocks (w ∷ ws) = cell_to_block blocks w >>= λ ib. block_at blocks ib >>= λ b.
    local_cells blocks ws >>= λ rest. ok (record { block = ib; cell = get_idx b.indexc w } ∷ rest)

-- `GetSendCells`
unfoldable pub get_send_cells : List Block → List ℕ → List LocalCell → Result (List LocalCell)
unfolding received_midx local_cells
get_send_cells blocks globalsize recv =
    received_midx blocks globalsize recv >>= λ ws. local_cells blocks ws

-- `CommManager::Task`, for the only rank.
pub record Task : Type 0 where
  pub send : List LocalCell
  pub recv : List LocalCell

pub record Tasks : Type 0 where
  pub full_one : Task
  pub full_two : Task
  pub direct_one : Task
  pub direct_two : Task

abbrev pub with_send : List Block → List ℕ → List LocalCell → Result Task
with_send blocks globalsize recv =
    get_send_cells blocks globalsize recv >>= λ send. ok (record { send = send; recv = recv })

-- `GetTasks`
unfoldable pub get_tasks : ℕ → List Block → List ℕ → List Bool → Result Tasks
unfolding get_recv_cells get_send_cells
get_tasks dim blocks globalsize is_periodic = recv 2 true >>= λ full_two.
    recv 2 false >>= λ direct_two. recv 1 true >>= λ full_one. recv 1 false >>= λ direct_one.
    with_send blocks globalsize full_two >>= λ a. with_send blocks globalsize direct_two >>= λ b.
    with_send blocks globalsize full_one >>= λ c. with_send blocks globalsize direct_one >>= λ d.
    ok (record { full_one = c; full_two = a; direct_one = d; direct_two = b })
  where
    recv : ℕ → Bool → Result (List LocalCell)
    recv halos full =
        get_recv_cells
          (record {
            dim = dim;
            halos = halos;
            full = full;
            globalsize = globalsize;
            is_periodic = is_periodic;
          })
          0 blocks
