-- ===== src/Tests/Formats.antt =====
-- Runs of the format strings.
use aphros_test.Base.{◌≡◌, refl, List, [], ◌∷◌, codes, arith, none, some, ok}
use aphros_test.Util.Format.Fields.{
  Piece, plain, opening, closing, field, render, meaning, parse_format-render,
}
use aphros_test.Util.Format.{Printer, parse_format}

abbrev print_x : Printer
print_x l = codes "x"

abbrev print_width : Printer
print_width l = elim l.width [ none ↦ codes "-" | some w ↦ codes "w" ]

field_run : parse_format (codes "a{}{{{1:03d}}}") (print_x ∷ print_width ∷ []) ≡ ok (codes "ax{w}")
unfolding parse_format
field_run = refl

-- A field that is not closed is dropped without an error.
open_field_run : parse_format (codes "a{0:3") (print_x ∷ []) ≡ ok (codes "a")
unfolding parse_format
open_field_run = refl

abbrev pieces : List Piece
pieces = plain (codes "a") ∷ field ∷ opening ∷ field ∷ closing ∷ []

parse_format-render_example :
    parse_format (render pieces) (print_x ∷ print_width ∷ [])
    ≡ meaning (print_x ∷ print_width ∷ []) 0 pieces
parse_format-render_example = parse_format-render (print_x ∷ print_width ∷ []) pieces (ground arith)
