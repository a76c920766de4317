-- ===== src/Parse/Arguments/Declared/Outcomes.antt =====
-- Which errors an assignment can end in, and what it keeps.
use aphros_test.Base.{
  ℕ, zero, suc, ◌<◌, ◌≡◌, ◌≢◌, refl, sym, subst, ap, ◌∙◌, ◌⊎◌, inl, inr, Bool, true, false, List,
  [], ◌∷◌, Option, none, some, Option-cases, Bool-cases, Bytes, bytes_eq, bytes_eq_refl,
  if◌then◌else◌, length, arith, Error, bad_value, trailing_characters, change_of_type, not_an_int,
  Result, ok, err, ◌>>=◌,
}
use aphros_test.Parse.Arguments.Read.{Args, thrown, assign}
use aphros_test.Parse.KeyMap.Laws.{contains-insert}
use aphros_test.Parse.KeyMap.{insert, contains}
use aphros_test.Parse.Number.{ℤ, pos, Extracted, got, failed, untouched, StreamNumber, read_int}
use aphros_test.Parse.Vars.Types.{set_number-insert}
use aphros_test.Parse.Vars.{
  Kind, string, int, double, vect, type_name, kind_of, find_kind, set_number, read_vect, store_vect,
  set_vect, set_kind, set_named, set_checked, set_str, no_trailing,
}

-- The errors of `SetStr` on a text that is no value of a type, with characters behind a value, and on
-- a name that has another type; and that of a switch that is no `int`.
abbrev pub is_parse_error : Error → Bool
is_parse_error bad_value = true
is_parse_error trailing_characters = true
is_parse_error change_of_type = true
is_parse_error not_an_int = true
is_parse_error _ = false

-- A result is a value with a property, or one of these errors.
abbrev pub Returns : {A : Type 0} → (A → Type 0) → Result A → Type 0
Returns P (ok a) = P a
Returns P (err e) = is_parse_error e ≡ true

pub Returns-bind :
    {A B : Type 0} (P : A → Type 0) (Q : B → Type 0) (r : Result A) (f : A → Result B)
    → Returns P r
    → ((a : A) → P a → Returns Q (f a))
    → Returns Q (r >>= f)
Returns-bind P Q (ok a) f h k = k a h
Returns-bind P Q (err e) f h k = h

pub Returns-mono :
    {A : Type 0} (P Q : A → Type 0) (r : Result A)
    → ((a : A) → P a → Q a)
    → Returns P r
    → Returns Q r
Returns-mono P Q (ok a) f h = f a h
Returns-mono P Q (err e) f h = h

abbrev pub Any : {A : Type 0} → A → Type 0
Any a = Unit {0}

no_trailing-Returns : (s : Bytes) → Returns Any (no_trailing s)
no_trailing-Returns [] = tt
no_trailing-Returns (c ∷ s) = refl

set_number-Returns :
    {V : Type 0} (z : V) (x : Extracted V) (k : Bytes) (m : List (Bytes × V))
    → Returns Any (set_number z x k m).1
unfolding set_number
set_number-Returns z (got a rest) k m = no_trailing-Returns _
set_number-Returns z (failed a ended) k m = refl
set_number-Returns z untouched k m = refl

module _ (D : StreamNumber) where
  read_vect-Returns : (fuel : ℕ) (s : Bytes) → length s < fuel → Returns Any (read_vect D fuel s)
  unfolding read_vect
  read_vect-Returns zero s h = absurd (omega (arith, h))
  read_vect-Returns (suc fuel) s h =
      go (λ (rest : Bytes) (q : length rest < fuel). read_vect-Returns fuel rest q) (D.read s) refl
    where
      push :
          (a : D.Value) (x : Result (List D.Value))
          → Returns Any x
          → Returns Any (elim x [ ok r ↦ ok (a ∷ r) | err e ↦ err e ])
      push a (ok r) k = tt
      push a (err e) k = k

      ended_lem : (b : Bool) → Returns {A = List D.Value} Any (if b then ok [] else err bad_value)
      ended_lem true = tt
      ended_lem false = refl

      go :
          ((rest : Bytes) → length rest < fuel → Returns Any (read_vect D fuel rest))
          → (x : Extracted D.Value) → D.read s ≡ x
          → Returns Any (elim x [
            | got a rest ↦ elim (read_vect D fuel rest) [ ok r ↦ ok (a ∷ r) | err e ↦ err e ]
            | failed a ended ↦ if ended then ok [] else err bad_value
            | untouched ↦ ok []
          ])
      go ih (got a rest) e =
          push a (read_vect D fuel rest) (ih rest (omega (arith, D.read_shortens s a rest e, h)))
      go ih (failed a ended) e = ended_lem ended
      go ih untouched e = tt

  abbrev pub Has : Bytes → Args D → Type 0
  Has j args = contains j args.ints ≡ true

  -- No `int` is lost, and a key that is set as an `int` is there.
  pub record Kept (e : Kind) (k : Bytes) (args set : Args D) : Type 0 where
    pub kept : (j : Bytes) → Has j args → Has j set
    pub there : e ≡ int → Has k set

  thrown-Returns :
      (P : Args D → Type 0) (set : Args D) (r : Result (Unit {0}))
      → Returns Any r
      → P set
      → Returns P (thrown D (set, r))
  thrown-Returns P set (ok u) h p = p
  thrown-Returns P set (err e) h p = h

  has_insert :
      (m : List (Bytes × ℤ)) (j k : Bytes) (v : ℤ)
      → contains j m ≡ true
      → contains j (insert k v m) ≡ true
  has_insert m j k v h = ground (arith, contains-insert k j v m, h)

  has_same : (m : List (Bytes × ℤ)) (k : Bytes) (v : ℤ) → contains k (insert k v m) ≡ true
  has_same m k v = ground (arith, contains-insert k k v m, bytes_eq_refl k)

  store_vect-Returns :
      (vars : Args D) (r : Result (List D.Value)) (k : Bytes)
      → Returns Any r
      → Returns (Kept vect k vars) (
          thrown D (
            record vars { vects = (store_vect D r k vars.vects).0 },
            (store_vect D r k vars.vects).1,
          ))
  unfolding store_vect
  store_vect-Returns vars (ok r) k h = record { kept = λ j p. p; there = λ q. absurd (cc) }
  store_vect-Returns vars (err e) k h = h

  set_kind-Returns :
      (vars : Args D) (e : Kind) (k v : Bytes)
      → Returns (Kept e k vars) (thrown D (set_kind D vars e k v))
  unfolding set_kind set_vect
  set_kind-Returns vars string k v = record { kept = λ j p. p; there = λ q. absurd (cc) }
  set_kind-Returns vars int k v =
      let (a, e) = set_number-insert D (pos 0) (read_int v) k vars.ints in
      thrown-Returns (Kept int k vars)
        (record vars { ints = (set_number (pos 0) (read_int v) k vars.ints).0 })
        (set_number (pos 0) (read_int v) k vars.ints).1
        (set_number-Returns (pos 0) (read_int v) k vars.ints)
        (record {
          kept = λ j p. rw e (has_insert vars.ints j k a p);
          there = λ q. rw e (has_same vars.ints k a);
        })
  set_kind-Returns vars double k v =
      thrown-Returns (Kept double k vars)
        (record vars { doubles = (set_number D.zero_value (D.read v) k vars.doubles).0 })
        (set_number D.zero_value (D.read v) k vars.doubles).1
        (set_number-Returns D.zero_value (D.read v) k vars.doubles)
        (record { kept = λ j p. p; there = λ q. absurd (cc) })
  set_kind-Returns vars vect k v =
      store_vect-Returns vars (read_vect D (suc (length v)) v) k
        (read_vect-Returns (suc (length v)) v (omega arith))

  set_named-Returns :
      (vars : Args D) (e : Kind) (t k v : Bytes)
      → kind_of t ≡ some e
      → Returns (Kept e k vars) (thrown D (set_named D vars t k v))
  unfolding set_named
  set_named-Returns vars e t k v h =
      subst
        (λ (x : Option Kind). Returns (Kept e k vars) (
          thrown D (elim x [
            | none ↦ (vars, err aphros_test.Base.Error.unknown_type)
            | some e ↦ set_kind D vars e k v
          ])))
        (sym h) (set_kind-Returns vars e k v)

  set_checked-Returns :
      (x : Option Kind) (vars : Args D) (e : Kind) (t k v : Bytes)
      → kind_of t ≡ some e
      → Returns (Kept e k vars) (thrown D (set_checked D x vars t k v))
  unfolding set_checked
  set_checked-Returns none vars e t k v h = set_named-Returns vars e t k v h
  set_checked-Returns (some d) vars e t k v h = elim (Bool-cases (bytes_eq (type_name d) t)) [
    | inl q ↦ rw q (set_named-Returns vars e t k v h)
    | inr q ↦ rw q refl
  ]

  -- An assignment under the name of a type ends in no error but one of these.
  pub assign-Returns :
      (args : Args D) (e : Kind) (t k v : Bytes)
      → kind_of t ≡ some e
      → Returns (Kept e k args) (assign D t k v args)
  unfolding assign set_str
  assign-Returns args e t k v h = set_checked-Returns (find_kind args k) args e t k v h
