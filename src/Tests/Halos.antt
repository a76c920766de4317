-- ===== src/Tests/Halos.antt =====
-- Runs of the lists of cells that are received and sent: a periodic line of six cells in two blocks.
use aphros_test.Base.{
  ◌≤◌, ltb, leb, ◌&&◌, Bool-cases, inl, inr, ℕ, ◌≡◌, ◌<◌, ◌+◌, ◌↔◌, refl, true, false, List, [],
  ◌∷◌, arith, Result, ok, err, get_elem?, Option, some, none, Bool, zero, suc, ap, sym, ◌∙◌,
}
use aphros_test.Base.Int.{ℤ, pos, negsuc, ◌+ℤ◌, +ℤ_parts}
use aphros_test.Distr.Halos.{
  Tasks, get_tasks, Block, LocalCell, Stencil, block_cells, get_recv_cells, get_send_cells,
}
use aphros_test.Distr.Halos.Exchange.{IsDivided, get_recv_cells-Matches}
use aphros_test.Distr.Halos.Periodic.{InMesh}
use aphros_test.Distr.Halos.Matched.{get_tasks-IsMatched}
use aphros_test.Distr.Halos.Receive.{Mem}
use aphros_test.Distr.Halos.Region.{IsRegion, IsHalo, block_cells-IsHalo}
use aphros_test.Distr.Halos.Send.{IsOwned, AllBlocks, Matches, get_send_cells-Matches}
use aphros_test.Geom.Index.{Index, get_idx, size, is_inside}
use aphros_test.Geom.Vect.{MIdx, SameDim, prod}

abbrev first : Block
first = record {
  incells = record { begin = pos 0 ∷ []; sizes = 3 ∷ [] };
  indexc = record { begin = negsuc 1 ∷ []; sizes = 7 ∷ [] };
}

abbrev second : Block
second = record {
  incells = record { begin = pos 3 ∷ []; sizes = 3 ∷ [] };
  indexc = record { begin = pos 1 ∷ []; sizes = 7 ∷ [] };
}

abbrev line : Stencil
line = record { dim = 1; halos = 1; full = true; globalsize = 6 ∷ []; is_periodic = true ∷ [] }

abbrev received_cells : List LocalCell
received_cells =
    record { block = 0; cell = 1 }
    ∷ record { block = 0; cell = 5 }
    ∷ record { block = 1; cell = 1 }
    ∷ record { block = 1; cell = 5 }
    ∷ []

recv_run : get_recv_cells line 0 (first ∷ second ∷ []) ≡ ok received_cells
unfolding get_recv_cells aphros_test.Base.Int.◌+ℤ◌ aphros_test.Base.Int.◌-ℤ◌
recv_run = refl

send_run :
    get_send_cells (first ∷ second ∷ []) (6 ∷ []) received_cells
    ≡ ok (
        record { block = 1; cell = 4 }
        ∷ record { block = 1; cell = 2 }
        ∷ record { block = 0; cell = 4 }
        ∷ record { block = 0; cell = 2 }
        ∷ [])
unfolding get_send_cells aphros_test.Base.Int.◌-ℤ◌
send_run = refl

first-IsRegion : IsRegion line first
unfolding prod aphros_test.Base.Int.◌+ℤ◌
first-IsRegion = record {
  inner = record { same_dim = tt; fits = omega arith };
  outer = record { same_dim = tt; fits = omega arith };
  small = omega arith;
  stencil = record { same_dim = tt; fits = omega arith };
  positive = (omega arith, tt);
  same_dim = refl;
  some_dim = omega arith;
  grown = (omega arith, omega arith, tt);
}

block_cells-IsHalo_example :
    (cells : List ℕ) × (block_cells line first ≡ ok cells)
    × ((c : ℕ) → Mem c cells → c < size first.indexc)
    × ((w : MIdx)
        → SameDim w first.indexc.sizes
        → is_inside first.indexc w ≡ true
        → Mem (get_idx first.indexc w) cells ↔ IsHalo line first w)
block_cells-IsHalo_example = block_cells-IsHalo line first first-IsRegion

blocks-AllBlocks : AllBlocks 1 (first ∷ second ∷ [])
unfolding aphros_test.Base.Int.◌+ℤ◌ prod
blocks-AllBlocks = (
  record {
    layers = 2;
    small = omega arith;
    index = first-IsRegion.outer;
    same_dim = refl;
    grown = (omega arith, omega arith, tt);
  },
  (
    record {
      layers = 2;
      small = omega arith;
      index = record { same_dim = tt; fits = omega arith };
      same_dim = refl;
      grown = (omega arith, omega arith, tt);
    },
    tt,
  ),
)

abbrev blocks : List Block
blocks = first ∷ second ∷ []

holds_at : ℕ → Option Block → Bool
holds_at n none = true
holds_at n (some c) = is_inside c.incells (pos n ∷ [])

tested : (n : ℕ) → ((leb 0 (n + 0) && true) && (ltb (n + 0) 3 && true)) ≡ ltb n 3
tested n = elim (Bool-cases (ltb n 3)) [ inl p ↦ ground (arith, p) | inr p ↦ ground (arith, p) ]

tested_behind :
    (n : ℕ) → ((leb 3 (n + 0) && true) && (ltb (n + 0) 6 && true)) ≡ (leb 3 n && ltb n 6)
tested_behind n = elim (Bool-cases (leb 3 n && ltb n 6)) [
  | inl p ↦ ground (arith, p)
  | inr p ↦ ground (arith, p)
]

inside_first : (n : ℕ) → is_inside first.incells (pos n ∷ []) ≡ ltb n 3
unfolding is_inside aphros_test.Geom.Vect.less aphros_test.Geom.Vect.less_equal
    aphros_test.Base.Int.◌+ℤ◌
inside_first n = tested n

inside_second : (n : ℕ) → is_inside second.incells (pos n ∷ []) ≡ (leb 3 n && ltb n 6)
unfolding is_inside aphros_test.Geom.Vect.less aphros_test.Geom.Vect.less_equal
    aphros_test.Base.Int.◌+ℤ◌
inside_second n = tested_behind n

only_first :
    (n : ℕ)
    → ltb n 3 ≡ true
    → (jb : ℕ) (c : Block) → get_elem? blocks jb ≡ some c
    → is_inside c.incells (pos n ∷ []) ≡ true
    → jb ≡ 0
unfolding holds_at
only_first n p zero c e h = refl
only_first n p (suc zero) c e h =
    absurd (ground (arith, p, sym (inside_second n) ∙ (ap (holds_at n) e ∙ h)))
only_first n p (suc (suc jb)) c e h = absurd (cc)

only_second :
    (n : ℕ)
    → ltb n 3 ≡ false
    → (jb : ℕ) (c : Block) → get_elem? blocks jb ≡ some c
    → is_inside c.incells (pos n ∷ []) ≡ true
    → jb ≡ 1
unfolding holds_at
only_second n p zero c e h =
    absurd (ground (arith, p, sym (inside_first n) ∙ (ap (holds_at n) e ∙ h)))
only_second n p (suc zero) c e h = refl
only_second n p (suc (suc jb)) c e h = absurd (cc)

cell-IsOwned : (w : MIdx) → InMesh (6 ∷ []) w → IsOwned blocks w
cell-IsOwned [] h = absurd h
cell-IsOwned (negsuc n ∷ w) h = absurd (ground (arith, h.0))
cell-IsOwned (pos n ∷ x ∷ w) h = absurd h.2
cell-IsOwned (pos n ∷ []) h = elim (Bool-cases (ltb n 3)) [
  | inl p ↦ (0, first, refl, inside_first n ∙ p, only_first n p)
  | inr p ↦ (1, second, refl, inside_second n ∙ ground (arith, p, h.1), only_second n p)
]

get_send_cells-Matches_example :
    (send : List LocalCell) × (get_send_cells blocks (6 ∷ []) (record { block = 0; cell = 1 } ∷ [])
      ≡ ok send)
    × Matches blocks (6 ∷ []) (record { block = 0; cell = 1 } ∷ []) send
unfolding aphros_test.Geom.Index.get_midx ◌+ℤ◌
get_send_cells-Matches_example =
    get_send_cells-Matches blocks (6 ∷ []) blocks-AllBlocks (omega arith, tt)
      (record { block = 0; cell = 1 } ∷ [])
      ((first, refl, (omega arith, tt), λ u image. cell-IsOwned u image.0), tt)

abbrev of_line : ℕ → Bool → Stencil
of_line halos full = record {
  dim = 1;
  halos = halos;
  full = full;
  globalsize = 6 ∷ [];
  is_periodic = true ∷ [];
}

of_line-IsRegion : (halos : ℕ) (full : Bool) → halos ≤ 2 → IsRegion (of_line halos full) first
unfolding prod
of_line-IsRegion halos full h = record {
  inner = record { same_dim = tt; fits = omega arith };
  outer = record { same_dim = tt; fits = omega arith };
  small = omega arith;
  stencil = record { same_dim = tt; fits = omega (arith, h) };
  positive = (omega arith, tt);
  same_dim = refl;
  some_dim = omega arith;
  grown = (
    omega (arith, h, +ℤ_parts (negsuc 1) (pos halos)),
    omega (arith, h, +ℤ_parts (pos 0) (pos (3 + halos)), +ℤ_parts (negsuc 1) (pos 7)),
    tt,
  );
}

second-IsRegion : (halos : ℕ) (full : Bool) → halos ≤ 2 → IsRegion (of_line halos full) second
unfolding prod
second-IsRegion halos full h = record {
  inner = record { same_dim = tt; fits = omega arith };
  outer = record { same_dim = tt; fits = omega arith };
  small = omega arith;
  stencil = record { same_dim = tt; fits = omega (arith, h) };
  positive = (omega arith, tt);
  same_dim = refl;
  some_dim = omega arith;
  grown = (
    omega (arith, h, +ℤ_parts (pos 1) (pos halos)),
    omega (arith, h, +ℤ_parts (pos 3) (pos (3 + halos)), +ℤ_parts (pos 1) (pos 7)),
    tt,
  );
}

line-IsDivided : (halos : ℕ) (full : Bool) → halos ≤ 2 → IsDivided (of_line halos full) blocks
unfolding ◌+ℤ◌
line-IsDivided halos full h = record {
  same_dim = refl;
  positive = (omega arith, tt);
  near = omega (arith, h);
  regions = (
    (of_line-IsRegion halos full h, (omega arith, omega arith, tt)),
    ((second-IsRegion halos full h, (omega arith, omega arith, tt)), tt),
  );
  owned = cell-IsOwned;
}

get_recv_cells-Matches_example :
    (recv : List LocalCell) × (send : List LocalCell) × (get_recv_cells line 0 blocks ≡ ok recv)
    × (get_send_cells blocks (6 ∷ []) recv ≡ ok send)
    × Matches blocks (6 ∷ []) recv send
get_recv_cells-Matches_example =
    get_recv_cells-Matches line blocks (line-IsDivided 1 true (omega arith))

get_tasks-IsMatched_example :
    (tasks : Tasks) × (get_tasks 1 blocks (6 ∷ []) (true ∷ []) ≡ ok tasks)
    × Matches blocks (6 ∷ []) tasks.full_one.recv tasks.full_one.send
    × Matches blocks (6 ∷ []) tasks.full_two.recv tasks.full_two.send
    × Matches blocks (6 ∷ []) tasks.direct_one.recv tasks.direct_one.send
    × Matches blocks (6 ∷ []) tasks.direct_two.recv tasks.direct_two.send
get_tasks-IsMatched_example =
    get_tasks-IsMatched 1 blocks (6 ∷ []) (true ∷ []) (λ full. line-IsDivided 1 full (omega arith))
      (λ full. line-IsDivided 2 full (omega arith))
