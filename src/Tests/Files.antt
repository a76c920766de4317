-- ===== src/Tests/Files.antt =====
-- Runs of the commands on whole texts.
use aphros_test.Base.{
  ℕ, ◌≡◌, refl, List, [], ◌∷◌, Bytes, codes, arith, Result, ok, err, ◌≤◌, trailing_characters,
}
use aphros_test.Parse.Commands.Print.RoundTrip.{
  parse-print_strings, parse-print_ints, only_strings, only_ints,
}
use aphros_test.Parse.Commands.{parse_stream, print_map}
use aphros_test.Parse.Number.{ℤ, pos, negsuc, print_int}
use aphros_test.Parse.Vars.{no_vars, type_name, string, int}
use aphros_test.Tests.Numbers.{files}

abbrev two_strings : List (Bytes × Bytes)
two_strings = (codes "a", codes "hello world") ∷ (codes "b", codes "x\ny") ∷ []

abbrev two_ints : List (Bytes × ℤ)
two_ints = (codes "m", negsuc 2) ∷ (codes "n", pos 40) ∷ []

run_commands :
    parse_stream files 3 no_vars (codes "set int n 4 # four\nset string s $n$n\ndel n\n")
    ≡ (only_strings files ((codes "s", codes "44") ∷ []), ok tt)
unfolding parse_stream aphros_test.Base.bytes_eq aphros_test.Parse.KeyMap.erase
run_commands = refl

parse-print_strings_example :
    parse_stream files 1 no_vars (print_map (λ v. v) (type_name string) two_strings)
    ≡ (only_strings files two_strings, ok tt)
unfolding aphros_test.Parse.Text.drop_back aphros_test.Parse.Text.drop_spaces
    aphros_test.Base.bytes_less
parse-print_strings_example = parse-print_strings files 0 two_strings (ground arith) (ground arith)

parse-print_ints_example :
    parse_stream files 1 no_vars (print_map print_int (type_name int) two_ints)
    ≡ (only_ints files two_ints, ok tt)
unfolding aphros_test.Parse.Text.drop_back aphros_test.Parse.Text.drop_spaces
    aphros_test.Base.bytes_less
parse-print_ints_example = parse-print_ints files 0 two_ints (ground arith) (ground arith)
