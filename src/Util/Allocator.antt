-- ===== src/Util/Allocator.antt =====
-- `FixedAllocator` of util/fixed_allocator.h: chunks of a fixed size from pools. An address is a
-- number, 0 is `nullptr`, and the memory gives the pointer that a chunk's first bytes hold.
pub mod Reuse
use aphros_test.Base.{ℕ, zero, suc, ◌+◌, Bool, List, [], ◌∷◌, ◌++◌, ◌==◌, ltb, if◌then◌else◌}

abbrev pub Memory : Type 0
Memory = ℕ → ℕ

unfoldable pub store : ℕ → ℕ → Memory → Memory
store at value memory a = if a == at then value else memory a

pub record Allocator : Type 0 where
  pub head : ℕ
  pub pools : List ℕ
  pub memory : Memory

-- `kEffChunkSize`, with the size of a pointer.
abbrev pub chunk_of : ℕ → ℕ → ℕ
chunk_of chunk_size pointer_size = if ltb pointer_size chunk_size then chunk_size else pointer_size

-- The loop of `AllocatePool` from `at` on: each chunk holds the next one, and the last one, which
-- begins before the end, holds 0. `fuel` bounds the number of chunks.
unfoldable pub link_chunks : ℕ → ℕ → ℕ → ℕ → Memory → Memory
unfolding store
link_chunks zero chunk end at memory = memory
link_chunks (suc fuel) chunk end at memory =
    let linked = link_chunks fuel chunk end (at + chunk) (store at (at + chunk) memory) in
    if ltb (at + chunk) end then linked else if ltb at end then store at 0 memory else memory

-- `AllocatePool`, where `operator new` gives `begin`.
unfoldable pub allocate_pool : ℕ → ℕ → ℕ → Allocator → Allocator
unfolding link_chunks
allocate_pool chunk pool_size begin a = record a {
  pools = a.pools ++ (begin ∷ []);
  memory = link_chunks (suc pool_size) chunk (begin + pool_size) begin a.memory;
  head = begin;
}

-- `Allocate`, where `begin` is used if a pool is needed: the chunk and the new state.
unfoldable pub allocate : ℕ → ℕ → ℕ → Allocator → ℕ × Allocator
unfolding allocate_pool
allocate chunk pool_size begin a =
    let b = if a.head == 0 then allocate_pool chunk pool_size begin a else a in
    (b.head, record b { head = b.memory b.head })

-- `Deallocate`
unfoldable pub deallocate : ℕ → Allocator → Allocator
unfolding store
deallocate ptr a = record a { memory = store ptr a.head a.memory; head = ptr }
