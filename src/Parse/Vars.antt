-- ===== src/Parse/Vars.antt =====
-- parse/vars.h and parse/vars.cpp: typed variables by name, one ordered map for each type.
-- The access hook, which only observes reads, is left out.
pub mod Types
pub mod Laws
use aphros_test.Base.{
  ℕ, zero, suc, ◌≡◌, Bool, true, false, ◌||◌, List, [], ◌∷◌, ◌++◌, Option, none, some, Bytes, codes,
  bytes_eq, if◌then◌else◌, length, Error, bad_value, trailing_characters, change_of_type,
  unknown_type, out_of_range, out_of_fuel, Result, ok, err,
}
use aphros_test.Parse.KeyMap.{lookup, insert, erase, contains, IsSorted}
use aphros_test.Parse.Number.{
  ℤ, pos, Extracted, got, failed, untouched, StreamNumber, read_int, print_int,
}
use aphros_test.Parse.Text.{drop_spaces}

-- The four maps of `Vars`, over the type that stands for `double`.
pub record Vars (T : Type 0) : Type 0 where
  pub strings : List (Bytes × Bytes)
  pub ints : List (Bytes × ℤ)
  pub doubles : List (Bytes × T)
  pub vects : List (Bytes × List T)

abbrev pub no_vars : {T : Type 0} → Vars T
no_vars = record { strings = []; ints = []; doubles = []; vects = [] }

pub data Kind : Type 0 where
  string int double vect : Kind

-- `Map<T>::GetTypeName()`
abbrev pub type_name : Kind → Bytes
type_name string = codes "string"
type_name int = codes "int"
type_name double = codes "double"
type_name vect = codes "vect"

-- The comparisons of a type's name in `GetStr` and `SetStr`, in their order.
unfoldable pub kind_of : Bytes → Option Kind
kind_of t =
    if bytes_eq t (type_name string)
    then some string
    else if bytes_eq t (type_name int)
    then some int
    else if bytes_eq t (type_name double)
    then some double
    else if bytes_eq t (type_name vect)
    then some vect
    else none

-- `m_.at(k)`
abbrev at {ℓ} : {V : Type ℓ} → Bytes → List (Bytes × V) → Result V
at k m = elim (lookup k m) [ none ↦ err out_of_range | some v ↦ ok v ]

module _ {T : Type 0} where
  -- `Vars::GetTypeName`, before the type is turned into its name.
  unfoldable pub find_kind : Vars T → Bytes → Option Kind
  find_kind vars k =
      if contains k vars.strings
      then some string
      else if contains k vars.ints
      then some int
      else if contains k vars.doubles
      then some double
      else if contains k vars.vects
      then some vect
      else none

  unfoldable pub get_type_name : Vars T → Bytes → Bytes
  unfolding find_kind
  get_type_name vars k = elim (find_kind vars k) [ none ↦ [] | some e ↦ type_name e ]

  -- `Vars::Del`: the first map that holds the key loses it.
  unfoldable pub del : Vars T → Bytes → Vars T × Bool
  del vars k =
      if contains k vars.strings
      then (record vars { strings = erase k vars.strings }, true)
      else if contains k vars.ints
      then (record vars { ints = erase k vars.ints }, true)
      else if contains k vars.doubles
      then (record vars { doubles = erase k vars.doubles }, true)
      else if contains k vars.vects
      then (record vars { vects = erase k vars.vects }, true)
      else (vars, false)

-- `stream >> c` at the end of `Map<T>::SetStr`: only spaces may follow the value.
abbrev pub no_trailing : Bytes → Result (Unit {0})
no_trailing [] = ok tt
no_trailing (c ∷ s) = err trailing_characters

-- `Map<T>::SetStr` for one number. `stream >> m_[k]` stores a value also when it fails; the key is
-- added, with the value `T()`, even where the stream is left as it was.
unfoldable pub set_number :
    {V : Type 0} → V → Extracted V → Bytes → List (Bytes × V) → List (Bytes × V) × Result (Unit {0})
unfolding drop_spaces lookup
set_number z (got a rest) k m = (insert k a m, no_trailing (drop_spaces rest))
set_number z (failed a ended) k m = (insert k a m, err bad_value)
set_number z untouched k m =
    (insert k (elim (lookup k m) [ none ↦ z | some v ↦ v ]) m, err bad_value)

module _ (D : StreamNumber) where
  -- The loop of `Map<std::vector<double>>::SetStr`.
  unfoldable pub read_vect : ℕ → Bytes → Result (List D.Value)
  read_vect zero s = err out_of_fuel
  read_vect (suc fuel) s = elim (D.read s) [
    | got a rest ↦ elim (read_vect fuel rest) [ ok r ↦ ok (a ∷ r) | err e ↦ err e ]
    | failed a ended ↦ if ended then ok [] else err bad_value
    | untouched ↦ ok []
  ]

  -- `m_[k] = r` at its end: the map changes only when the whole text is read.
  unfoldable pub store_vect :
      Result (List D.Value)
      → Bytes
      → List (Bytes × List D.Value)
      → List (Bytes × List D.Value) × Result (Unit {0})
  store_vect (ok r) k m = (insert k r m, ok tt)
  store_vect (err e) k m = (m, err e)

  -- `Map<std::vector<double>>::SetStr`
  unfoldable pub set_vect :
      Bytes → Bytes → List (Bytes × List D.Value) → List (Bytes × List D.Value) × Result (Unit {0})
  unfolding read_vect store_vect
  set_vect v k m = store_vect (read_vect (suc (length v)) v) k m

  -- `Map<T>::ValueToStr` for vectors: the numbers with a space between two.
  unfoldable pub print_vect : List D.Value → Bytes
  print_vect [] = []
  print_vect (a ∷ []) = D.print a
  print_vect (a ∷ b ∷ r) = D.print a ++ (b' ' ∷ print_vect (b ∷ r))

  -- `Vars::GetStr` for a type.
  unfoldable pub get_kind : Vars D.Value → Kind → Bytes → Result Bytes
  unfolding lookup print_vect print_int
  get_kind vars string k = at k vars.strings
  get_kind vars int k = elim (at k vars.ints) [ ok v ↦ ok (print_int v) | err e ↦ err e ]
  get_kind vars double k = elim (at k vars.doubles) [ ok v ↦ ok (D.print v) | err e ↦ err e ]
  get_kind vars vect k = elim (at k vars.vects) [ ok v ↦ ok (print_vect v) | err e ↦ err e ]

  unfoldable pub get_str : Vars D.Value → Bytes → Bytes → Result Bytes
  unfolding kind_of get_kind
  get_str vars t k = elim (kind_of t) [ none ↦ err unknown_type | some e ↦ get_kind vars e k ]

  -- `Map<T>::SetStr` of the map of a type, within `Vars`.
  unfoldable pub set_kind : Vars D.Value → Kind → Bytes → Bytes → Vars D.Value × Result (Unit {0})
  unfolding insert set_number set_vect read_int
  set_kind vars string k v = (record vars { strings = insert k v vars.strings }, ok tt)
  set_kind vars int k v =
      let r = set_number (pos 0) (read_int v) k vars.ints in (record vars { ints = r.0 }, r.1)
  set_kind vars double k v =
      let r = set_number D.zero_value (D.read v) k vars.doubles in
      (record vars { doubles = r.0 }, r.1)
  set_kind vars vect k v = let r = set_vect v k vars.vects in (record vars { vects = r.0 }, r.1)

  -- The dispatch of `Vars::SetStr` on the type's name.
  unfoldable pub set_named : Vars D.Value → Bytes → Bytes → Bytes → Vars D.Value × Result (Unit {0})
  unfolding kind_of set_kind
  set_named vars t k v = elim (kind_of t) [
    | none ↦ (vars, err unknown_type)
    | some e ↦ set_kind vars e k v
  ]

  -- `Vars::SetStr` on the existing type: a variable keeps it.
  unfoldable pub set_checked :
      Option Kind → Vars D.Value → Bytes → Bytes → Bytes → Vars D.Value × Result (Unit {0})
  unfolding set_named
  set_checked none vars t k v = set_named vars t k v
  set_checked (some e) vars t k v =
      if bytes_eq (type_name e) t then set_named vars t k v else (vars, err change_of_type)

  unfoldable pub set_str : Vars D.Value → Bytes → Bytes → Bytes → Vars D.Value × Result (Unit {0})
  unfolding find_kind set_checked
  set_str vars t k v = set_checked (find_kind vars k) vars t k v
