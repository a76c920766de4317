-- ===== src/Parse/Arguments/Declared/Tables.antt =====
-- Tables of the parser and known types under insertions (parse/argparse.cpp).
use aphros_test.Base.{
  ◌≡◌, refl, sym, ap, ◌∙◌, inl, inr, Bool, true, false, List, [], ◌∷◌, ◌++◌, none, some, Bool-cases,
  Bytes, bytes_eq, bytes_less, bytes_eq_iff, bytes_eq_refl, if◌then◌else◌, arith,
}
use aphros_test.Parse.Arguments.Declared.Invariant.{AllValues, AllTexts}
use aphros_test.Parse.Arguments.{
  Value, string_value, int_value, double_value, vect_value, set_value,
}
use aphros_test.Parse.KeyMap.Laws.{contains-insert}
use aphros_test.Parse.KeyMap.{insert, contains}
use aphros_test.Parse.Vars.{Vars, Kind, string, int, double, vect, find_kind}

pub insert-AllValues :
    {V : Type 0} (P : V → Type 0) (k : Bytes) (v : V) (m : List (Bytes × V))
    → P v
    → AllValues P m
    → AllValues P (insert k v m)
unfolding insert
insert-AllValues P k v [] h a = (h, tt)
insert-AllValues P k v ((j, w) ∷ m) h a =
    go (insert-AllValues P k v m h a.1) (bytes_eq j k) (bytes_less k j)
  where
    go :
        AllValues P (insert k v m)
        → (x y : Bool)
        → AllValues P
            (if x then (k, v) ∷ m else if y then (k, v) ∷ (j, w) ∷ m else (j, w) ∷ insert k v m)
    go b true y = (h, a.1)
    go b false true = (h, a)
    go b false false = (a.0, b)

pub AllValues-mono :
    {V : Type 0} (P Q : V → Type 0) (m : List (Bytes × V))
    → ((v : V) → P v → Q v)
    → AllValues P m
    → AllValues Q m
AllValues-mono P Q [] f h = tt
AllValues-mono P Q ((k, v) ∷ m) f h = (f v h.0, AllValues-mono P Q m f h.1)

pub AllTexts-mono :
    (P Q : Bytes → Type 0) (l : List Bytes)
    → ((k : Bytes) → P k → Q k)
    → AllTexts P l
    → AllTexts Q l
AllTexts-mono P Q [] f h = tt
AllTexts-mono P Q (k ∷ l) f h = (f k h.0, AllTexts-mono P Q l f h.1)

pub AllTexts-append :
    (P : Bytes → Type 0) (l : List Bytes) (k : Bytes)
    → AllTexts P l
    → P k
    → AllTexts P (l ++ (k ∷ []))
AllTexts-append P [] k h p = (p, tt)
AllTexts-append P (j ∷ l) k h p = (h.0, AllTexts-append P l k h.1 p)

some_kind :
    (a b c d : Bool)
    → (if a then true else if b then true else if c then true else d) ≡ true
    → (e : Kind) × ((if a
          then some string
          else if b
          then some int
          else if c
          then some double
          else if d
          then some vect
          else none)
        ≡ some e)
some_kind true b c d h = (string, refl)
some_kind false true c d h = (int, refl)
some_kind false false true d h = (double, refl)
some_kind false false false true h = (vect, refl)
some_kind false false false false h = absurd (cc)

module _ {T : Type 0} where
  pub find_kind-set_value :
      (k j : Bytes) (v : Value T) (vars : Vars T)
      → bytes_eq k j ≡ false
      → find_kind (set_value k v vars) j ≡ find_kind vars j
  unfolding find_kind set_value
  find_kind-set_value k j (string_value v) vars h =
      ground (arith, contains-insert k j v vars.strings, h)
  find_kind-set_value k j (int_value v) vars h = ground (arith, contains-insert k j v vars.ints, h)
  find_kind-set_value k j (double_value v) vars h =
      ground (arith, contains-insert k j v vars.doubles, h)
  find_kind-set_value k j (vect_value v) vars h =
      ground (arith, contains-insert k j v vars.vects, h)

  pub find_kind_set :
      (k : Bytes) (v : Value T) (vars : Vars T)
      → (e : Kind) × (find_kind (set_value k v vars) k ≡ some e)
  unfolding find_kind set_value
  find_kind_set k (string_value v) vars =
      some_kind (contains k (insert k v vars.strings)) (contains k vars.ints)
        (contains k vars.doubles) (contains k vars.vects)
        (ground (arith, contains-insert k k v vars.strings, bytes_eq_refl k))
  find_kind_set k (int_value v) vars =
      some_kind (contains k vars.strings) (contains k (insert k v vars.ints))
        (contains k vars.doubles) (contains k vars.vects)
        (ground (arith, contains-insert k k v vars.ints, bytes_eq_refl k))
  find_kind_set k (double_value v) vars =
      some_kind (contains k vars.strings) (contains k vars.ints)
        (contains k (insert k v vars.doubles)) (contains k vars.vects)
        (ground (arith, contains-insert k k v vars.doubles, bytes_eq_refl k))
  find_kind_set k (vect_value v) vars =
      some_kind (contains k vars.strings) (contains k vars.ints) (contains k vars.doubles)
        (contains k (insert k v vars.vects))
        (ground (arith, contains-insert k k v vars.vects, bytes_eq_refl k))

  -- A known type is not lost.
  pub known_set :
      (k j : Bytes) (v : Value T) (vars : Vars T) (e : Kind)
      → find_kind vars j ≡ some e
      → (d : Kind) × (find_kind (set_value k v vars) j ≡ some d)
  known_set k j v vars e h = elim (Bool-cases (bytes_eq k j)) [
    | inl q ↦
        let same : k ≡ j = (bytes_eq_iff k j).0 q in
        let (d, p) = find_kind_set k v vars in
        (d, ap (find_kind (set_value k v vars)) (sym same) ∙ p)
    | inr q ↦ (e, find_kind-set_value k j v vars q ∙ h)
  ]
