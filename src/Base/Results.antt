-- ===== src/Base/Results.antt =====
-- Exceptions as values. Messages are not modelled: `Error` names the check that threw.
-- `out_of_fuel` is a run that has not come to its end. `undefined` is an operation that C++ leaves
-- undefined: nothing is known of the program from there on.

pub data Error : Type 0 where
  undefined_variable unexpected_char unmatched_brace unexpected_end : Error
  bad_value trailing_characters change_of_type unknown_type unknown_command : Error
  nested_call assertion no_matching_quote empty_path not_a_directory cannot_open : Error
  unmatched_paren empty_expression unknown_operation not_a_number : Error
  empty_names not_a_switch inconsistent_names name_conflict not_an_int : Error
  brace_in_name key_not_found template_mismatch out_of_range out_of_fuel undefined : Error

pub data Result {ℓ} (A : Type ℓ) : Type ℓ where
  ok : A → Result A
  err : Error → Result A

infixl 5 ◌>>=◌
abbrev pub ◌>>=◌ {ℓ κ} : {A : Type ℓ} {B : Type κ} → Result A → (A → Result B) → Result B
ok a >>= f = f a
err e >>= f = err e
