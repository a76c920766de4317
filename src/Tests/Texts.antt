-- ===== src/Tests/Texts.antt =====
-- Runs of the readers of texts.
use aphros_test.Base.{
  ◌≡◌, ◌≢◌, refl, true, List, [], ◌∷◌, ◌++◌, Bytes, codes, if◌then◌else◌, arith, some, Result, ok,
  err, no_matching_quote, undefined_variable, out_of_fuel, bytes_eq,
}
use aphros_test.Parse.CodeBlocks.Blocks.{block_text, parse_code_block_found}
use aphros_test.Parse.CodeBlocks.RoundTrip.{print_blocks, parse-print_blocks}
use aphros_test.Parse.CodeBlocks.{CodeBlock, parse_code_block, parse_code_blocks}
use aphros_test.Parse.Evaluate.Pieces.{eval_expressions-render, eval_expressions_total}
use aphros_test.Parse.Evaluate.{eval_expressions}
use aphros_test.Parse.Expand.Pieces.{expand_variables-render, expand_variables_total}
use aphros_test.Parse.Expand.{expand_variables}
use aphros_test.Parse.Stream.Lines.{
  read_multiline_line, read_multiline_last, read_multiline_quoted, read_multiline_unmatched,
}
use aphros_test.Parse.Stream.{Stream, read_multiline}

unfoldable lookup_x : Bytes → Result Bytes
lookup_x k = if bytes_eq k (codes "x") then ok (codes "5") else err undefined_variable

unfoldable double_it : Bytes → Result Bytes
double_it k = ok (k ++ k)

abbrev stream : Bytes → Stream
stream s = record { rest = s; good = true }

expand_run :
    expand_variables lookup_x (codes "a $x${x} \\$x $(($x))") ≡ ok (codes "a 55 \\$x $((5))")
unfolding expand_variables lookup_x bytes_eq
expand_run = refl

eval_run : eval_expressions double_it (codes "a $((7)) \\$((7))") ≡ ok (codes "a 77 $((7))")
unfolding eval_expressions double_it
eval_run = refl

abbrev expand_pieces : List aphros_test.Parse.Expand.Pieces.Piece
expand_pieces =
    aphros_test.Parse.Expand.Pieces.plain (codes "a ")
    ∷ aphros_test.Parse.Expand.Pieces.bare (codes "x")
    ∷ aphros_test.Parse.Expand.Pieces.braced (codes "x")
    ∷ aphros_test.Parse.Expand.Pieces.escaped b'$'
    ∷ []

expand_variables-render_example :
    expand_variables lookup_x (aphros_test.Parse.Expand.Pieces.render expand_pieces)
    ≡ aphros_test.Parse.Expand.Pieces.meaning lookup_x expand_pieces
unfolding aphros_test.Parse.Expand.Pieces.render
expand_variables-render_example = expand_variables-render lookup_x expand_pieces (ground arith)

double_it_returns : (k : Bytes) → double_it k ≢ err out_of_fuel
unfolding double_it
double_it_returns k = ground arith

lookup_x_returns : (k : Bytes) → lookup_x k ≢ err out_of_fuel
unfolding lookup_x
lookup_x_returns k = ground arith

expand_variables_total_example : expand_variables lookup_x (codes "a ${x") ≢ err out_of_fuel
expand_variables_total_example = expand_variables_total lookup_x (codes "a ${x") lookup_x_returns

abbrev eval_pieces : List aphros_test.Parse.Evaluate.Pieces.Piece
eval_pieces =
    aphros_test.Parse.Evaluate.Pieces.plain (codes "a ")
    ∷ aphros_test.Parse.Evaluate.Pieces.expression (codes "(1)")
    ∷ aphros_test.Parse.Evaluate.Pieces.dollar_char b'x'
    ∷ aphros_test.Parse.Evaluate.Pieces.escaped b'$'
    ∷ []

eval_expressions-render_example :
    eval_expressions double_it (aphros_test.Parse.Evaluate.Pieces.render eval_pieces)
    ≡ aphros_test.Parse.Evaluate.Pieces.meaning double_it eval_pieces
eval_expressions-render_example = eval_expressions-render double_it eval_pieces (ground arith)

eval_expressions_total_example : eval_expressions double_it (codes "$((1") ≢ err out_of_fuel
eval_expressions_total_example = eval_expressions_total double_it (codes "$((1") double_it_returns

read_multiline_line_example :
    read_multiline (stream (codes " set x" ++ (b'\n' ∷ codes "more")))
    ≡ ok (record { content = codes "set x"; lines = 1; stream = stream (codes "more") })
unfolding aphros_test.Parse.Text.strip
read_multiline_line_example = read_multiline_line (codes " set x") (codes "more") (ground arith)

read_multiline_quoted_example :
    read_multiline (
      stream
        (codes "a " ++ (b'"' ∷ (codes "b\nc" ++ (b'"' ∷ (codes " e" ++ (b'\n' ∷ codes "d")))))))
    ≡ ok (record { content = codes "a b\nc e"; lines = 2; stream = stream (codes "d") })
unfolding aphros_test.Parse.Text.strip aphros_test.Parse.Stream.Lines.count_newlines
read_multiline_quoted_example =
    read_multiline_quoted (codes "a ") (codes "b\nc") (codes " e") (codes "d") (ground arith)
      (ground arith) (ground arith)

read_multiline_unmatched_example :
    read_multiline (stream (codes "a " ++ (b'"' ∷ codes "b\nc"))) ≡ err no_matching_quote
read_multiline_unmatched_example =
    read_multiline_unmatched (codes "a ") (codes "b\nc") (ground arith) (ground arith)

abbrev two_blocks : List CodeBlock
two_blocks =
    record { name = codes "a b"; content = codes "x {y}" }
    ∷ record { name = codes "c"; content = [] }
    ∷ []

parse-print_blocks_example : parse_code_blocks (print_blocks two_blocks) ≡ ok two_blocks
unfolding aphros_test.Parse.Text.drop_back aphros_test.Parse.Text.drop_spaces
parse-print_blocks_example = parse-print_blocks two_blocks (ground arith)

-- The second name is lost, since no character separates the blocks.
lost_name :
    parse_code_blocks (codes "a{1}b{2}")
    ≡ ok (
        record { name = codes "a"; content = codes "1" }
        ∷ record { name = []; content = codes "2" }
        ∷ [])
unfolding parse_code_blocks
lost_name = refl

parse_code_block_found_example :
    parse_code_block (stream (block_text (codes " ") b'a' [] (codes "1") (codes "b{2}")))
    ≡ ok (some (record { name = codes "a"; content = codes "1" }), stream (codes "{2}"))
unfolding aphros_test.Parse.Text.strip
parse_code_block_found_example =
    parse_code_block_found (codes " ") b'a' [] (codes "1") (codes "b{2}") (ground arith) refl
      (ground arith) (ground arith)
