-- ===== src/Distr/Halos/Matched.antt =====
-- `GetTasks` on a mesh that is divided into blocks.
use aphros_test.Base.{ℕ, ◌≡◌, refl, Bool, true, false, List, ok}
use aphros_test.Distr.Halos.Exchange.{IsDivided, get_recv_cells-Matches}
use aphros_test.Distr.Halos.Send.{Matches}
use aphros_test.Distr.Halos.{Block, Stencil, Task, Tasks, get_tasks}

module _ (dim : ℕ) (blocks : List Block) (globalsize : List ℕ) (is_periodic : List Bool) where
  abbrev pub stencil : ℕ → Bool → Stencil
  stencil halos full = record {
    dim = dim;
    halos = halos;
    full = full;
    globalsize = globalsize;
    is_periodic = is_periodic;
  }

  abbrev pub IsMatched : Task → Type 0
  IsMatched t = Matches blocks globalsize t.recv t.send

  -- In a mesh that is divided into blocks, with two layers round each, `GetTasks` succeeds, and in all
  -- four tasks the sent cells match the received ones.
  pub get_tasks-IsMatched :
      ((full : Bool) → IsDivided (stencil 1 full) blocks)
      → ((full : Bool) → IsDivided (stencil 2 full) blocks)
      → (tasks : Tasks) × (get_tasks dim blocks globalsize is_periodic ≡ ok tasks)
        × IsMatched tasks.full_one
        × IsMatched tasks.full_two
        × IsMatched tasks.direct_one
        × IsMatched tasks.direct_two
  unfolding get_tasks
  get_tasks-IsMatched one two =
      let (r1, s1, p1, q1, m1) = get_recv_cells-Matches (stencil 2 true) blocks (two true) in
      let (r2, s2, p2, q2, m2) = get_recv_cells-Matches (stencil 2 false) blocks (two false) in
      let (r3, s3, p3, q3, m3) = get_recv_cells-Matches (stencil 1 true) blocks (one true) in
      let (r4, s4, p4, q4, m4) = get_recv_cells-Matches (stencil 1 false) blocks (one false) in
      (
        record {
          full_one = record { send = s3; recv = r3 };
          full_two = record { send = s1; recv = r1 };
          direct_one = record { send = s4; recv = r4 };
          direct_two = record { send = s2; recv = r2 };
        },
        rw (p1, p2, p3, p4, q1, q2, q3, q4) refl,
        m3,
        m1,
        m4,
        m2,
      )
