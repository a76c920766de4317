-- ===== src/Parse/Vars/Types.antt =====
-- A key names a variable of one type only, and the maps stay in order.
use aphros_test.Base.{
  suc, length, ◌≡◌, refl, sym, ap, ◌∙◌, true, false, List, Option, none, some, Bytes, bytes_eq,
  bytes_eq_iff, bytes_eq_refl, arith, Bool-cases, Option-cases, ◌⊎◌, inl, inr, Result, ok, err, ◌↔◌,
}
use aphros_test.Parse.KeyMap.{insert, contains, IsSorted}
use aphros_test.Parse.KeyMap.Laws.{contains-insert, contains-erase, insert-IsSorted}
use aphros_test.Parse.Number.{ℤ, pos, StreamNumber, Extracted, got, failed, untouched, read_int}
use aphros_test.Parse.Vars.{
  Vars, Kind, string, int, double, vect, type_name, kind_of, find_kind, del, set_number, store_vect,
  set_checked, set_vect, set_kind, set_named, set_str, read_vect,
}

module _ {T : Type 0} where
  -- The four maps are ordered, and no key stands in two of them.
  pub record IsWellFormed (vars : Vars T) : Type 0 where
    pub strings_sorted : IsSorted vars.strings
    pub ints_sorted : IsSorted vars.ints
    pub doubles_sorted : IsSorted vars.doubles
    pub vects_sorted : IsSorted vars.vects
    pub string_alone :
        (k : Bytes)
        → contains k vars.strings ≡ true
        → (contains k vars.ints ≡ false)
          × (contains k vars.doubles ≡ false)
          × (contains k vars.vects ≡ false)
    pub int_alone :
        (k : Bytes)
        → contains k vars.ints ≡ true
        → (contains k vars.doubles ≡ false) × (contains k vars.vects ≡ false)
    pub double_alone : (k : Bytes) → contains k vars.doubles ≡ true → contains k vars.vects ≡ false

  -- `Del` of a variable of a well-formed state leaves no variable of that name, keeps the type of
  -- every other name and the form of the state; it reports whether the name was defined.
  pub del_lem :
      (vars : Vars T) (k : Bytes)
      → IsWellFormed vars
      → (find_kind (del vars k).0 k ≡ none)
        × ((j : Bytes) → bytes_eq k j ≡ false → find_kind (del vars k).0 j ≡ find_kind vars j)
        × (((del vars k).1 ≡ false) ↔ (find_kind vars k ≡ none))
  unfolding del find_kind
  del_lem vars k w = (
    ground (
      arith,
      bytes_eq_refl k,
      contains-erase k k vars.strings w.strings_sorted,
      contains-erase k k vars.ints w.ints_sorted,
      contains-erase k k vars.doubles w.doubles_sorted,
      contains-erase k k vars.vects w.vects_sorted,
      w.string_alone k,
      w.int_alone k,
      w.double_alone k,
    ),
    λ j n. ground (
      arith,
      contains-erase k j vars.strings w.strings_sorted,
      contains-erase k j vars.ints w.ints_sorted,
      contains-erase k j vars.doubles w.doubles_sorted,
      contains-erase k j vars.vects w.vects_sorted,
    ),
    (ground arith, ground arith),
  )

  -- A key that `SetStr` may give the type `e`: it is new, or has that type.
  abbrev IsFree : Vars T → Kind → Bytes → Type 0
  IsFree vars e k = (find_kind vars k ≡ none) ⊎ (find_kind vars k ≡ some e)

  insert_string-IsWellFormed :
      (vars : Vars T) (k : Bytes) (v : Bytes)
      → IsFree vars string k
      → IsWellFormed vars
      → IsWellFormed (record vars { strings = insert k v vars.strings })
  unfolding find_kind
  insert_string-IsWellFormed vars k v f w = record {
    strings_sorted = insert-IsSorted k v vars.strings w.strings_sorted;
    ints_sorted = w.ints_sorted;
    doubles_sorted = w.doubles_sorted;
    vects_sorted = w.vects_sorted;
    string_alone = λ j c.
        ground (arith, bytes_eq_iff k j, contains-insert k j v vars.strings, w.string_alone j);
    int_alone = w.int_alone;
    double_alone = w.double_alone;
  }

  insert_int-IsWellFormed :
      (vars : Vars T) (k : Bytes) (v : ℤ)
      → IsFree vars int k
      → IsWellFormed vars
      → IsWellFormed (record vars { ints = insert k v vars.ints })
  unfolding find_kind
  insert_int-IsWellFormed vars k v f w = record {
    strings_sorted = w.strings_sorted;
    ints_sorted = insert-IsSorted k v vars.ints w.ints_sorted;
    doubles_sorted = w.doubles_sorted;
    vects_sorted = w.vects_sorted;
    string_alone =
        λ j c. ground (arith, bytes_eq_iff k j, contains-insert k j v vars.ints, w.string_alone j);
    int_alone =
        λ j c. ground (arith, bytes_eq_iff k j, contains-insert k j v vars.ints, w.int_alone j);
    double_alone = w.double_alone;
  }

  insert_double-IsWellFormed :
      (vars : Vars T) (k : Bytes) (v : T)
      → IsFree vars double k
      → IsWellFormed vars
      → IsWellFormed (record vars { doubles = insert k v vars.doubles })
  unfolding find_kind
  insert_double-IsWellFormed vars k v f w = record {
    strings_sorted = w.strings_sorted;
    ints_sorted = w.ints_sorted;
    doubles_sorted = insert-IsSorted k v vars.doubles w.doubles_sorted;
    vects_sorted = w.vects_sorted;
    string_alone = λ j c.
        ground (arith, bytes_eq_iff k j, contains-insert k j v vars.doubles, w.string_alone j);
    int_alone =
        λ j c. ground (arith, bytes_eq_iff k j, contains-insert k j v vars.doubles, w.int_alone j);
    double_alone = λ j c.
        ground (arith, bytes_eq_iff k j, contains-insert k j v vars.doubles, w.double_alone j);
  }

  insert_vect-IsWellFormed :
      (vars : Vars T) (k : Bytes) (v : List T)
      → IsFree vars vect k
      → IsWellFormed vars
      → IsWellFormed (record vars { vects = insert k v vars.vects })
  unfolding find_kind
  insert_vect-IsWellFormed vars k v f w = record {
    strings_sorted = w.strings_sorted;
    ints_sorted = w.ints_sorted;
    doubles_sorted = w.doubles_sorted;
    vects_sorted = insert-IsSorted k v vars.vects w.vects_sorted;
    string_alone =
        λ j c. ground (arith, bytes_eq_iff k j, contains-insert k j v vars.vects, w.string_alone j);
    int_alone =
        λ j c. ground (arith, bytes_eq_iff k j, contains-insert k j v vars.vects, w.int_alone j);
    double_alone =
        λ j c. ground (arith, bytes_eq_iff k j, contains-insert k j v vars.vects, w.double_alone j);
  }

-- A type is found by its name.
pub kind_of-type_name : (e : Kind) → kind_of (type_name e) ≡ some e
unfolding kind_of bytes_eq
kind_of-type_name string = refl
kind_of-type_name int = refl
kind_of-type_name double = refl
kind_of-type_name vect = refl

module _ (D : StreamNumber) where
  pub set_number-insert :
      {V : Type 0} (z : V) (x : Extracted V) (k : Bytes) (m : List (Bytes × V))
      → (a : V) × ((set_number z x k m).0 ≡ insert k a m)
  unfolding set_number
  set_number-insert z (got a rest) k m = (a, refl)
  set_number-insert z (failed a ended) k m = (a, refl)
  set_number-insert z untouched k m = (_, refl)

  store_vect-insert :
      (x : Result (List D.Value)) (k : Bytes) (m : List (Bytes × List D.Value))
      → ((store_vect D x k m).0 ≡ m)
        ⊎ ((r : List D.Value) × ((store_vect D x k m).0 ≡ insert k r m))
  unfolding store_vect
  store_vect-insert (ok r) k m = inr (r, refl)
  store_vect-insert (err e) k m = inl refl

  pub set_vect-insert :
      (v k : Bytes) (m : List (Bytes × List D.Value))
      → ((set_vect D v k m).0 ≡ m) ⊎ ((r : List D.Value) × ((set_vect D v k m).0 ≡ insert k r m))
  unfolding set_vect
  set_vect-insert v k m = store_vect-insert (read_vect D (suc (length v)) v) k m

  set_kind-IsWellFormed :
      (vars : Vars D.Value) (e : Kind) (k v : Bytes)
      → IsFree vars e k
      → IsWellFormed vars
      → IsWellFormed (set_kind D vars e k v).0
  unfolding set_kind
  set_kind-IsWellFormed vars string k v f w = insert_string-IsWellFormed vars k v f w
  set_kind-IsWellFormed vars int k v f w =
      let (a, e) = set_number-insert (pos 0) (read_int v) k vars.ints in
      rw e (insert_int-IsWellFormed vars k a f w)
  set_kind-IsWellFormed vars double k v f w =
      let (a, e) = set_number-insert D.zero_value (D.read v) k vars.doubles in
      rw e (insert_double-IsWellFormed vars k a f w)
  set_kind-IsWellFormed vars vect k v f w = elim (set_vect-insert v k vars.vects) [
    | inl e ↦ rw e w
    | inr (r, e) ↦ rw e (insert_vect-IsWellFormed vars k r f w)
  ]

  set_named-IsWellFormed :
      (vars : Vars D.Value) (t k v : Bytes)
      → ((e : Kind) → kind_of t ≡ some e → IsFree vars e k)
      → IsWellFormed vars
      → IsWellFormed (set_named D vars t k v).0
  unfolding set_named
  set_named-IsWellFormed vars t k v f w = elim (Option-cases (kind_of t)) [
    | inl e ↦ rw (e, set_named) w
    | inr (x, e) ↦ rw (e, set_named) (set_kind-IsWellFormed vars x k v (f x e) w)
  ]

  set_checked-IsWellFormed :
      (x : Option Kind) (vars : Vars D.Value) (t k v : Bytes)
      → find_kind vars k ≡ x
      → IsWellFormed vars
      → IsWellFormed (set_checked D x vars t k v).0
  unfolding set_checked
  set_checked-IsWellFormed none vars t k v h w = set_named-IsWellFormed vars t k v (λ e _. inl h) w
  set_checked-IsWellFormed (some e) vars t k v h w = elim (Bool-cases (bytes_eq (type_name e) t)) [
    | inl same ↦ rw same (
        set_named-IsWellFormed vars t k v
          (λ x q. inr (h ∙ sym (kind_of-type_name e) ∙ ap kind_of ((bytes_eq_iff _ t).0 same) ∙ q))
          w)
    | inr differ ↦ rw differ w
  ]

  -- `SetStr` keeps the form of the state on every branch, the failing ones included.
  pub set_str-IsWellFormed :
      (vars : Vars D.Value) (t k v : Bytes)
      → IsWellFormed vars
      → IsWellFormed (set_str D vars t k v).0
  unfolding set_str
  set_str-IsWellFormed vars t k v w = set_checked-IsWellFormed (find_kind vars k) vars t k v refl w
