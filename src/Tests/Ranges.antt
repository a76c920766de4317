-- ===== src/Tests/Ranges.antt =====
-- Runs of the faces, subblocks, stages, images and templates.
use aphros_test.Base.{
  err, undefined, ℕ, ◌+◌, ◌*◌, ◌≡◌, ◌≢◌, ◌<◌, ◌≤◌, refl, Bool, true, false, List, [], ◌∷◌, Bytes,
  codes, arith, Option, none, some, Result, ok, err, out_of_fuel, length,
}
use aphros_test.Base.Int.{ℤ, pos, negsuc}
use aphros_test.Geom.Block.Clip.{is_inside-clip}
use aphros_test.Geom.Block.{clip}
use aphros_test.Geom.FaceBlock.{Face, first_face, visit}
use aphros_test.Geom.Face.Bijection.{midx_dir-face, face-midx_dir}
use aphros_test.Geom.Face.{dimension, faces_size, get_face, get_midx_dir}
use aphros_test.Geom.Index.Bijection.{IsIndex}
use aphros_test.Geom.Index.{Index, size, is_inside, get_end}
use aphros_test.Geom.RangeMulti.Position.{flat_of, StandsAt, increment-StandsAt}
use aphros_test.Geom.RangeMulti.{Iterator, increment}
use aphros_test.Geom.Vect.{MIdx, prod}
use aphros_test.Parse.Template.Pieces.{
  Piece, text, key, render, meaning, substitute_template-render, parse_template_total,
}
use aphros_test.Parse.Template.{substitute_template, parse_template}
use aphros_test.Solver.Images.RoundTrip.{unpack-pack, unpack-pack_four}
use aphros_test.Solver.Images.{Bits, pack, unpack}
use aphros_test.Util.Suspender.Stages.{drive, drive_lem}
use aphros_test.Util.Allocator.Reuse.{IsFreeList, allocate-deallocate}
use aphros_test.Util.Allocator.{Allocator, allocate, deallocate}
use aphros_test.Util.Suspender.{new_level, name_sequence, Suspender, new_suspender, pending}

abbrev grid : Index
grid = record { begin = negsuc 0 ∷ pos 2 ∷ []; sizes = 3 ∷ 2 ∷ [] }

abbrev cell : MIdx
cell = pos 1 ∷ pos 3 ∷ []

grid-IsIndex : IsIndex grid
unfolding prod
grid-IsIndex = record { same_dim = tt; fits = omega arith }

midx_dir-face_example :
    (get_face grid cell 1 < faces_size grid)
    × (get_midx_dir grid (get_face grid cell 1) ≡ some (cell, 1))
unfolding size is_inside aphros_test.Base.Int.◌+ℤ◌
midx_dir-face_example = midx_dir-face grid cell 1 grid-IsIndex (omega arith) tt refl (omega arith)

face-midx_dir_example :
    (w : MIdx) × (d : ℕ) × (get_midx_dir grid 7 ≡ some (w, d))
    × (d < dimension grid)
    × (is_inside grid w ≡ true)
    × (get_face grid w d ≡ 7)
unfolding size faces_size
face-midx_dir_example = face-midx_dir grid 7 grid-IsIndex (omega arith) (omega arith)

-- The last column of the second row, of a block of 2 columns within rows of 5.
abbrev last_column : Iterator
last_column = record { pos = 1 ∷ 1 ∷ []; flat = 16 }

next_row :
    increment 1 (2 ∷ 3 ∷ []) (5 ∷ 4 ∷ []) last_column ≡ ok (record { pos = 0 ∷ 2 ∷ []; flat = 20 })
unfolding increment
next_row = refl

-- 65536 * 65536 is no `int`.
no_int :
    increment 1
      (1 ∷ 1 ∷ 2 ∷ [])
      (65536 ∷ 65536 ∷ 2 ∷ [])
      (record { pos = 0 ∷ 0 ∷ 0 ∷ []; flat = 0 })
    ≡ err undefined
unfolding increment
no_int = refl

increment-StandsAt_example :
    StandsAt 10 1 (5 ∷ 4 ∷ []) (increment 1 (2 ∷ 3 ∷ []) (5 ∷ 4 ∷ []) last_column)
unfolding flat_of
increment-StandsAt_example =
    increment-StandsAt 10 1 (2 ∷ 3 ∷ []) (5 ∷ 4 ∷ []) last_column tt (omega arith)
      (omega arith, omega arith, omega arith, (omega arith, omega arith, omega arith, tt)) refl

drive_lem_example :
    (u : Suspender) × (drive 4 (codes "step") 3 new_suspender ≡ ok (0 ∷ 1 ∷ 2 ∷ [], u))
    × (pending u ≡ false)
drive_lem_example = drive_lem (codes "step") 3 4 new_suspender refl refl (omega arith) (omega arith)

abbrev zeros : Bits
zeros = record { w0 = pos 0; w1 = pos 0; w2 = pos 0; w3 = pos 0 }

unpack-pack_example :
    unpack 3 (pack zeros (pos 1 ∷ negsuc 0 ∷ pos 300 ∷ [])) ≡ pos 1 ∷ negsuc 0 ∷ pos 300 ∷ []
unpack-pack_example =
    unpack-pack zeros (pos 1 ∷ negsuc 0 ∷ pos 300 ∷ []) (omega arith) (omega arith)
      (omega arith, (omega arith, (omega arith, tt)))

unpack-pack_four_example :
    unpack 4 (pack zeros (pos 1 ∷ pos 2 ∷ pos 3 ∷ pos 4 ∷ [])) ≡ pos 1 ∷ pos 2 ∷ pos 4 ∷ pos 0 ∷ []
unpack-pack_four_example =
    unpack-pack_four zeros (pos 1) (pos 2) (pos 3) (pos 4)
      (omega arith, (omega arith, (omega arith, (omega arith, tt))))

abbrev letter : List Piece
letter = text (codes "a=") ∷ key (codes "k") ∷ text (codes ";") ∷ []

abbrev values : List (Bytes × Bytes)
values = (codes "k", codes "1") ∷ []

substitute_template-render_example :
    substitute_template (render letter) values ≡ meaning values letter
substitute_template-render_example = substitute_template-render values letter (ground arith)

parse_template_total_example : parse_template (codes "a={k} b") (codes "a=1 b") ≢ err out_of_fuel
parse_template_total_example = parse_template_total (codes "a={k} b") (codes "a=1 b")

-- A key at the end of a template gets no value.
value_lost :
    parse_template (codes "a={x} b={y}") (codes "a=1 b=s")
    ≡ ok ((codes "x", codes "1") ∷ (codes "y", []) ∷ [])
unfolding parse_template aphros_test.Base.bytes_eq aphros_test.Base.bytes_less
value_lost = refl

-- The faces of a block of two cells by one.
abbrev two_cells : Index
two_cells = record { begin = pos 0 ∷ pos 5 ∷ []; sizes = 2 ∷ 1 ∷ [] }

abbrev face : ℕ → ℕ → ℕ → Face
face x y d = record { cell = pos x ∷ pos y ∷ []; dir = d }

faces_run :
    visit 9 two_cells (first_face two_cells)
    ≡ ok (
        face 0 5 0
        ∷ face 1 5 0
        ∷ face 2 5 0
        ∷ face 0 5 1
        ∷ face 1 5 1
        ∷ face 0 6 1
        ∷ face 1 6 1
        ∷ [])
unfolding visit aphros_test.Base.Int.◌+ℤ◌
faces_run = refl

is_inside-clip_example :
    is_inside grid (clip grid.begin (get_end grid) (negsuc 7 ∷ pos 3 ∷ [])) ≡ true
is_inside-clip_example =
    is_inside-clip grid (negsuc 7 ∷ pos 3 ∷ []) tt tt (omega arith, (omega arith, tt))

name_run :
    name_sequence (record new_suspender {
      below = record (new_level (pos 0) (pos 0) (codes "f")) { suff_id = pos 12 } ∷ [];
    })
    ≡ codes ":00: --> f:12:"
unfolding name_sequence
name_run = refl

abbrev no_chunks : Allocator
no_chunks = record { head = 0; pools = []; memory = λ a. 0 }

-- One chunk, at 80, is free.
abbrev one_chunk : Allocator
one_chunk = record { head = 80; pools = 64 ∷ []; memory = λ a. 0 }

allocate-deallocate_example :
    let b = deallocate 72 one_chunk in
    let r = allocate 8 32 64 b in
    IsFreeList b.memory b.head (72 ∷ 80 ∷ [])
    × (r.0 ≡ 72)
    × IsFreeList r.1.memory r.1.head (80 ∷ [])
    × (r.1.pools ≡ 64 ∷ [])
    × ((x : ℕ) → x ≢ 72 → r.1.memory x ≡ 0)
allocate-deallocate_example =
    allocate-deallocate 8 32 64 72 (80 ∷ []) one_chunk (λ e. ground arith) ((λ e. ground arith), tt)
      (refl, (λ e. ground arith), refl)

-- The second chunk follows the first one.
second_chunk : (allocate 8 32 64 (allocate 8 32 64 no_chunks).1).0 ≡ 72
unfolding allocate
second_chunk = refl
