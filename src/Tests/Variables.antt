-- ===== src/Tests/Variables.antt =====
-- Runs of the variables.
use aphros_test.Base.{
  ℕ, ◌≢◌, ◌≡◌, refl, false, [], ◌∷◌, Bytes, codes, arith, none, some, ok, err, bytes_eq, inr, ◌↔◌,
  change_of_type,
}
use aphros_test.Parse.KeyMap.{lookup, contains}
use aphros_test.Parse.Number.{pos, negsuc, print_int}
use aphros_test.Parse.Vars.Laws.{
  set_str_frame, set_str_change_of_type, get-set_str_string, get-set_str_int,
}
use aphros_test.Parse.Vars.Types.{IsWellFormed, set_str-IsWellFormed, del_lem}
use aphros_test.Parse.Vars.{
  Vars, Kind, no_vars, string, int, type_name, find_kind, del, get_str, set_str,
}
use aphros_test.Tests.Numbers.{digit}

abbrev some_vars : Vars ℕ
some_vars = record {
  strings = (codes "a", codes "hello") ∷ [];
  ints = (codes "n", pos 7) ∷ [];
  doubles = [];
  vects = [];
}

no_vars-IsWellFormed : IsWellFormed {T = ℕ} no_vars
unfolding contains
no_vars-IsWellFormed = ground arith

set_str-IsWellFormed_example :
    IsWellFormed (set_str digit no_vars (codes "int") (codes "k") (codes "12 x")).0
set_str-IsWellFormed_example =
    set_str-IsWellFormed digit no_vars (codes "int") (codes "k") (codes "12 x") no_vars-IsWellFormed

some_vars-IsWellFormed : IsWellFormed some_vars
unfolding contains bytes_eq
some_vars-IsWellFormed = ground arith

del_lem_example :
    (find_kind (del some_vars (codes "a")).0 (codes "a") ≡ none)
    × ((j : Bytes)
        → bytes_eq (codes "a") j ≡ false
        → find_kind (del some_vars (codes "a")).0 j ≡ find_kind some_vars j)
    × (((del some_vars (codes "a")).1 ≡ false) ↔ (find_kind some_vars (codes "a") ≡ none))
del_lem_example = del_lem some_vars (codes "a") some_vars-IsWellFormed

set_str_frame_example :
    (find_kind (set_str digit some_vars (codes "int") (codes "n") (codes "x")).0 (codes "a")
      ≡ find_kind some_vars (codes "a"))
    × ((u : Bytes)
        → get_str digit
            (set_str digit some_vars (codes "int") (codes "n") (codes "x")).0
            u
            (codes "a")
          ≡ get_str digit some_vars u (codes "a"))
unfolding bytes_eq
set_str_frame_example =
    set_str_frame digit some_vars (codes "int") (codes "n") (codes "x") (codes "a") refl

set_str_change_of_type_example :
    (((set_str digit some_vars (codes "double") (codes "a") (codes "5")).1 ≡ err change_of_type) ↔ (
      (e : Kind) × ((find_kind some_vars (codes "a") ≡ some e) × (codes "double" ≢ type_name e))))
    × ((set_str digit some_vars (codes "double") (codes "a") (codes "5")
          ≡ (some_vars, err change_of_type))
        ↔ ((e : Kind) × ((find_kind some_vars (codes "a") ≡ some e)
              × (codes "double" ≢ type_name e))))
set_str_change_of_type_example =
    set_str_change_of_type digit some_vars (codes "double") (codes "a") (codes "5")

get-set_str_string_example :
    let r = set_str digit some_vars (type_name string) (codes "a") (codes "b c") in
    (r.1 ≡ ok tt) × (get_str digit r.0 (type_name string) (codes "a") ≡ ok (codes "b c"))
unfolding find_kind contains bytes_eq
get-set_str_string_example = get-set_str_string digit some_vars (codes "a") (codes "b c") (inr refl)

get-set_str_int_example :
    let r = set_str digit some_vars (type_name int) (codes "n") (print_int (negsuc 11)) in
    (r.1 ≡ ok tt)
    × (lookup (codes "n") r.0.ints ≡ some (negsuc 11))
    × (get_str digit r.0 (type_name int) (codes "n") ≡ ok (print_int (negsuc 11)))
unfolding find_kind contains bytes_eq
get-set_str_int_example =
    get-set_str_int digit some_vars (codes "n") (negsuc 11) (omega arith) (inr refl)
