-- ===== src/Util/Allocator/Reuse.antt =====
-- A chunk that is given back is the next one that is taken.
use aphros_test.Base.{ℕ, ◌≡◌, ◌≢◌, refl, sym, subst, true, false, List, [], ◌∷◌, arith, ◌==◌}
use aphros_test.Util.Allocator.{Memory, Allocator, store, allocate, deallocate}

-- From the head on the chunks of a list hold each the next one, and the last one holds 0.
abbrev pub IsFreeList : Memory → ℕ → List ℕ → Type 0
IsFreeList memory head [] = head ≡ 0
IsFreeList memory head (c ∷ free) = (head ≡ c) × (c ≢ 0) × IsFreeList memory (memory c) free

abbrev pub Absent : ℕ → List ℕ → Type 0
Absent ptr [] = Unit {0}
Absent ptr (c ∷ free) = (c ≢ ptr) × Absent ptr free

store_here : (at value : ℕ) (memory : Memory) → store at value memory at ≡ value
unfolding store
store_here at value memory = let same : (at == at) ≡ true = ground arith in rw same refl

store_there : (at value a : ℕ) (memory : Memory) → a ≢ at → store at value memory a ≡ memory a
unfolding store
store_there at value a memory h = let other : (a == at) ≡ false = ground (arith, h) in rw other refl

store-IsFreeList :
    (ptr value head : ℕ) (memory : Memory) (free : List ℕ)
    → Absent ptr free
    → IsFreeList memory head free
    → IsFreeList (store ptr value memory) head free
store-IsFreeList ptr value head memory [] h k = k
store-IsFreeList ptr value head memory (c ∷ free) h k = (
  k.0,
  k.1,
  subst (λ (a : ℕ). IsFreeList (store ptr value memory) a free)
      (sym (store_there ptr value c memory h.0))
      (store-IsFreeList ptr value (memory c) memory free h.1 k.2),
)

-- `Deallocate` of a chunk, which is not `nullptr` and not free, puts it in front of the list of free
-- chunks. `Allocate` then gives this chunk, takes no new pool, leaves the list of free chunks as it
-- was, and the two have written to no chunk but this one.
pub allocate-deallocate :
    (chunk pool_size begin ptr : ℕ) (free : List ℕ) (a : Allocator)
    → ptr ≢ 0
    → Absent ptr free
    → IsFreeList a.memory a.head free
    → let b = deallocate ptr a in
      let r = allocate chunk pool_size begin b in
      IsFreeList b.memory b.head (ptr ∷ free)
      × (r.0 ≡ ptr)
      × IsFreeList r.1.memory r.1.head free
      × (r.1.pools ≡ a.pools)
      × ((x : ℕ) → x ≢ ptr → r.1.memory x ≡ a.memory x)
unfolding allocate deallocate
allocate-deallocate chunk pool_size begin ptr free a h k l =
    let taken : (ptr == 0) ≡ false = ground (arith, h) in
    let list =
      subst (λ (p : ℕ). IsFreeList (store ptr a.head a.memory) p free)
        (sym (store_here ptr a.head a.memory))
        (store-IsFreeList ptr a.head a.head a.memory free k l) in
    rw taken ((refl, h, list), refl, list, refl, λ x n. store_there ptr a.head x a.memory n)
