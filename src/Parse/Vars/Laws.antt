-- ===== src/Parse/Vars/Laws.antt =====
-- What `SetStr` writes, and what it leaves alone.
use aphros_test.Base.{
  ℕ, zero, suc, length, Bool, true, ◌∷◌, bad_value, if◌then◌else◌, Result, ◌↔◌, ◌≡◌, refl, sym, ap,
  ◌∙◌, false, List, [], append-nil, Option, none, some, Bytes, bytes_eq, bytes_eq_iff,
  bytes_eq_refl, arith, Bool-cases, Option-cases, ◌⊎◌, ◌≢◌, inl, inr, ok, err, change_of_type,
}
use aphros_test.Parse.KeyMap.{insert, contains, lookup}
use aphros_test.Parse.KeyMap.Laws.{contains-insert, lookup-insert}
use aphros_test.Parse.Text.{drop_spaces}
use aphros_test.Parse.Number.{
  ℤ, pos, Extracted, got, failed, untouched, StreamNumber, read_int, print_int,
}
use aphros_test.Parse.Number.RoundTrip.{InRange, read-print_int}
use aphros_test.Parse.Vars.Types.{set_number-insert, set_vect-insert, kind_of-type_name}
use aphros_test.Parse.Vars.{
  Vars, Kind, string, int, double, vect, type_name, kind_of, find_kind, set_number, no_trailing,
  read_vect, store_vect, set_vect, set_kind, set_named, set_checked, set_str, get_kind, get_str,
}

-- An entry under another key is not seen at `j`.
insert_other {ℓ} :
    {V : Type ℓ} (k j : Bytes) (v : V) (m : List (Bytes × V))
    → bytes_eq k j ≡ false
    → (lookup j (insert k v m) ≡ lookup j m) × (contains j (insert k v m) ≡ contains j m)
insert_other k j v m n = ((lookup-insert k j v m) ∙ rw n, (contains-insert k j v m) ∙ rw n)

abbrev is_change : {A : Type 0} → Result A → Bool
is_change (err change_of_type) = true
is_change _ = false

changed : {A : Type 0} {r : Result A} → r ≡ err change_of_type → is_change r ≡ false → ⊥
changed q h = absurd (ground (arith, sym (ap is_change q) ∙ h))

both_equal : {A B : Type 0} (p q : A × B) → p.0 ≡ q.0 → p.1 ≡ q.1 → p ≡ q
both_equal (a, b) (c, d) h k = rw (h, k)

some_eq : (a b : Kind) → some a ≡ some b → a ≡ b
some_eq a b h = cc

module _ {T : Type 0} where
  -- The states hold the same at a key.
  pub record SameAt (j : Bytes) (a b : Vars T) : Type 0 where
    pub strings : lookup j b.strings ≡ lookup j a.strings
    pub ints : lookup j b.ints ≡ lookup j a.ints
    pub doubles : lookup j b.doubles ≡ lookup j a.doubles
    pub vects : lookup j b.vects ≡ lookup j a.vects
    pub string_there : contains j b.strings ≡ contains j a.strings
    pub int_there : contains j b.ints ≡ contains j a.ints
    pub double_there : contains j b.doubles ≡ contains j a.doubles
    pub vect_there : contains j b.vects ≡ contains j a.vects

  SameAt-refl : (j : Bytes) (a : Vars T) → SameAt j a a
  SameAt-refl j a = ground arith

  find_kind-SameAt : (j : Bytes) (a b : Vars T) → SameAt j a b → find_kind b j ≡ find_kind a j
  unfolding find_kind
  find_kind-SameAt j a b s = ground arith

module _ (D : StreamNumber) where
  set_kind-SameAt :
      (vars : Vars D.Value) (e : Kind) (k v j : Bytes)
      → bytes_eq k j ≡ false
      → SameAt j vars (set_kind D vars e k v).0
  unfolding set_kind
  set_kind-SameAt vars string k v j n = ground (arith, insert_other k j v vars.strings n)
  set_kind-SameAt vars int k v j n =
      let (a, e) = set_number-insert D (pos 0) (read_int v) k vars.ints in
      rw e (ground (arith, insert_other k j a vars.ints n))
  set_kind-SameAt vars double k v j n =
      let (a, e) = set_number-insert D D.zero_value (D.read v) k vars.doubles in
      rw e (ground (arith, insert_other k j a vars.doubles n))
  set_kind-SameAt vars vect k v j n = elim (set_vect-insert D v k vars.vects) [
    | inl e ↦ rw e (SameAt-refl j vars)
    | inr (r, e) ↦ rw e (ground (arith, insert_other k j r vars.vects n))
  ]

  set_named-SameAt :
      (vars : Vars D.Value) (t k v j : Bytes)
      → bytes_eq k j ≡ false
      → SameAt j vars (set_named D vars t k v).0
  unfolding set_named
  set_named-SameAt vars t k v j n = elim (Option-cases (kind_of t)) [
    | inl e ↦ rw (e, set_named) (SameAt-refl j vars)
    | inr (x, e) ↦ rw (e, set_named) (set_kind-SameAt vars x k v j n)
  ]

  set_checked-SameAt :
      (x : Option Kind) (vars : Vars D.Value) (t k v j : Bytes)
      → bytes_eq k j ≡ false
      → SameAt j vars (set_checked D x vars t k v).0
  unfolding set_checked
  set_checked-SameAt none vars t k v j n = set_named-SameAt vars t k v j n
  set_checked-SameAt (some e) vars t k v j n = elim (Bool-cases (bytes_eq (type_name e) t)) [
    | inl same ↦ rw same (set_named-SameAt vars t k v j n)
    | inr differ ↦ rw differ (SameAt-refl j vars)
  ]

  set_str-SameAt :
      (vars : Vars D.Value) (t k v j : Bytes)
      → bytes_eq k j ≡ false
      → SameAt j vars (set_str D vars t k v).0
  unfolding set_str
  set_str-SameAt vars t k v j n = set_checked-SameAt (find_kind vars k) vars t k v j n

  get_kind-SameAt :
      (a b : Vars D.Value) (e : Kind) (j : Bytes)
      → SameAt j a b
      → get_kind D b e j ≡ get_kind D a e j
  unfolding get_kind
  get_kind-SameAt a b string j s = ground (arith, s.strings)
  get_kind-SameAt a b int j s = ground (arith, s.ints)
  get_kind-SameAt a b double j s = ground (arith, s.doubles)
  get_kind-SameAt a b vect j s = ground (arith, s.vects)

  get_str-SameAt :
      (a b : Vars D.Value) (t j : Bytes) → SameAt j a b → get_str D b t j ≡ get_str D a t j
  unfolding get_str
  get_str-SameAt a b t j s = elim (Option-cases (kind_of t)) [
    | inl e ↦ rw (e, get_str)
    | inr (x, e) ↦ rw (e, get_str) (get_kind-SameAt a b x j s)
  ]

  -- `SetStr` of one name changes neither type nor value of any other, whether it succeeds or fails.
  pub set_str_frame :
      (vars : Vars D.Value) (t k v j : Bytes)
      → bytes_eq k j ≡ false
      → (find_kind (set_str D vars t k v).0 j ≡ find_kind vars j)
        × ((u : Bytes) → get_str D (set_str D vars t k v).0 u j ≡ get_str D vars u j)
  set_str_frame vars t k v j n =
      let s = set_str-SameAt vars t k v j n in
      (
        find_kind-SameAt j vars (set_str D vars t k v).0 s,
        λ u. get_str-SameAt vars (set_str D vars t k v).0 u j s,
      )

  no_trailing_kept : (s : Bytes) → is_change (no_trailing s) ≡ false
  no_trailing_kept [] = refl
  no_trailing_kept (c ∷ s) = refl

  set_number_kept :
      {V : Type 0} (z : V) (x : Extracted V) (k : Bytes) (m : List (Bytes × V))
      → is_change (set_number z x k m).1 ≡ false
  unfolding set_number
  set_number_kept z (got a rest) k m = no_trailing_kept (drop_spaces rest)
  set_number_kept z (failed a ended) k m = refl
  set_number_kept z untouched k m = refl

  more_kept :
      (a : D.Value) (r : Result (List D.Value))
      → is_change r ≡ false
      → is_change {A = List D.Value} (elim r [ ok l ↦ ok (a ∷ l) | err e ↦ err e ]) ≡ false
  more_kept a (ok l) h = refl
  more_kept a (err e) h = h

  stop_kept : (b : Bool) → is_change {A = List D.Value} (if b then ok [] else err bad_value) ≡ false
  stop_kept true = refl
  stop_kept false = refl

  read_kept :
      (next : Bytes → Result (List D.Value))
      → ((s : Bytes) → is_change (next s) ≡ false)
      → (x : Extracted D.Value)
      → is_change {A = List D.Value} (elim x [
        | got a rest ↦ elim (next rest) [ ok r ↦ ok (a ∷ r) | err e ↦ err e ]
        | failed a ended ↦ if ended then ok [] else err bad_value
        | untouched ↦ ok []
      ])
        ≡ false
  read_kept next h (got a rest) = more_kept a (next rest) (h rest)
  read_kept next h (failed a ended) = stop_kept ended
  read_kept next h untouched = refl

  read_vect_kept : (fuel : ℕ) (s : Bytes) → is_change (read_vect D fuel s) ≡ false
  unfolding read_vect
  read_vect_kept zero s = refl
  read_vect_kept (suc fuel) s = read_kept (λ t. read_vect D fuel t) (read_vect_kept fuel) (D.read s)

  store_vect_kept :
      (x : Result (List D.Value)) (k : Bytes) (m : List (Bytes × List D.Value))
      → is_change x ≡ false
      → is_change (store_vect D x k m).1 ≡ false
  unfolding store_vect
  store_vect_kept (ok r) k m h = refl
  store_vect_kept (err e) k m h = h

  set_kind_kept :
      (vars : Vars D.Value) (e : Kind) (k v : Bytes) → is_change (set_kind D vars e k v).1 ≡ false
  unfolding set_kind set_vect
  set_kind_kept vars string k v = refl
  set_kind_kept vars int k v = set_number_kept (pos 0) (read_int v) k vars.ints
  set_kind_kept vars double k v = set_number_kept D.zero_value (D.read v) k vars.doubles
  set_kind_kept vars vect k v =
      store_vect_kept (read_vect D (suc (length v)) v) k vars.vects
        (read_vect_kept (suc (length v)) v)

  set_named_kept :
      (vars : Vars D.Value) (t k v : Bytes) → is_change (set_named D vars t k v).1 ≡ false
  unfolding set_named
  set_named_kept vars t k v = elim (Option-cases (kind_of t)) [
    | inl e ↦ rw (e, set_named) refl
    | inr (x, e) ↦ rw (e, set_named) (set_kind_kept vars x k v)
  ]

  -- The variable has a type of another name.
  abbrev HasOther : Option Kind → Bytes → Type 0
  HasOther x t = (e : Kind) × ((x ≡ some e) × (t ≢ type_name e))

  set_checked_change :
      (x : Option Kind) (vars : Vars D.Value) (t k v : Bytes)
      → let r = set_checked D x vars t k v in
        ((r.1 ≡ err change_of_type) ↔ HasOther x t) × (r.1 ≡ err change_of_type → r.0 ≡ vars)
  unfolding set_checked
  set_checked_change none vars t k v =
      let kept = set_named_kept vars t k v in
      (
        (λ q. absurd (changed q kept), λ h. absurd (ground (arith, h.1.0))),
        λ q. absurd (changed q kept),
      )
  set_checked_change (some e) vars t k v = elim (Bool-cases (bytes_eq (type_name e) t)) [
    | inl same ↦ rw same (
        let kept = set_named_kept vars t k v in
        let name = (bytes_eq_iff (type_name e) t).0 same in
        (
          (
            λ q. absurd (changed q kept),
            λ h. absurd (h.1.1 (sym name ∙ ap type_name (some_eq e h.0 h.1.0))),
          ),
          λ q. absurd (changed q kept),
        ))
    | inr differ ↦ rw differ (
      (
        λ q. (
          e,
          (refl, λ n. absurd (ground (arith, (bytes_eq_iff (type_name e) t).1 (sym n), differ))),
        ),
        λ h. refl,
      ),
      λ q. refl,
    )
  ]

  -- `SetStr` is the error of a change of type exactly where the variable exists with a type of
  -- another name, whatever the name and the text are; and exactly there it is this error with the
  -- state as it was.
  pub set_str_change_of_type :
      (vars : Vars D.Value) (t k v : Bytes)
      → (((set_str D vars t k v).1 ≡ err change_of_type)
          ↔ ((e : Kind) × ((find_kind vars k ≡ some e) × (t ≢ type_name e))))
        × ((set_str D vars t k v ≡ (vars, err change_of_type))
            ↔ ((e : Kind) × ((find_kind vars k ≡ some e) × (t ≢ type_name e))))
  unfolding set_str
  set_str_change_of_type vars t k v =
      let (change, same) = set_checked_change (find_kind vars k) vars t k v in
      (
        change,
        (
          λ q. change.0 (ap (λ (r : Vars D.Value × Result (Unit {0})). r.1) q),
          λ h. both_equal _ (vars, err change_of_type) (same (change.1 h)) (change.1 h),
        ),
      )

  set_named-set_kind :
      (vars : Vars D.Value) (e : Kind) (k v : Bytes)
      → set_named D vars (type_name e) k v ≡ set_kind D vars e k v
  unfolding set_named
  set_named-set_kind vars e k v = rw (kind_of-type_name e, set_named)

  -- The name of a type that the variable has, or may take, is accepted.
  pub set_str-set_kind :
      (vars : Vars D.Value) (e : Kind) (k v : Bytes)
      → (find_kind vars k ≡ none) ⊎ (find_kind vars k ≡ some e)
      → set_str D vars (type_name e) k v ≡ set_kind D vars e k v
  unfolding set_str
  set_str-set_kind vars e k v (inl h) = rw (h, set_checked) (set_named-set_kind vars e k v)
  set_str-set_kind vars e k v (inr h) =
      rw (h, set_checked) (rw (bytes_eq_refl (type_name e)) (set_named-set_kind vars e k v))

  get_str-get_kind :
      (vars : Vars D.Value) (e : Kind) (k : Bytes)
      → get_str D vars (type_name e) k ≡ get_kind D vars e k
  unfolding get_str
  get_str-get_kind vars e k = rw (kind_of-type_name e, get_str)

  get_kind_string :
      (vars : Vars D.Value) (k v : Bytes)
      → get_kind D (set_kind D vars string k v).0 string k ≡ ok v
  unfolding get_kind set_kind
  get_kind_string vars k v = ground (arith, lookup-insert k k v vars.strings, bytes_eq_refl k)

  pub set_kind_string-insert :
      (vars : Vars D.Value) (k v : Bytes)
      → set_kind D vars string k v ≡ (record vars { strings = insert k v vars.strings }, ok tt)
  unfolding set_kind
  set_kind_string-insert vars k v = refl

  set_kind_string : (vars : Vars D.Value) (k v : Bytes) → (set_kind D vars string k v).1 ≡ ok tt
  unfolding set_kind
  set_kind_string vars k v = refl

  pub set_kind_int :
      (vars : Vars D.Value) (k : Bytes) (z : ℤ)
      → InRange z
      → set_kind D vars int k (print_int z) ≡ (record vars { ints = insert k z vars.ints }, ok tt)
  unfolding set_kind
  set_kind_int vars k z h =
      let read = ap read_int (sym (append-nil (print_int z))) ∙ read-print_int z [] h tt in
      rw (read, set_number)

  get_kind_int :
      (vars : Vars D.Value) (k : Bytes) (z : ℤ)
      → get_kind D (record vars { ints = insert k z vars.ints }) int k ≡ ok (print_int z)
  unfolding get_kind
  get_kind_int vars k z = ground (arith, lookup-insert k k z vars.ints, bytes_eq_refl k)

  -- Text that is set is read back as it is.
  pub get-set_str_string :
      (vars : Vars D.Value) (k v : Bytes)
      → (find_kind vars k ≡ none) ⊎ (find_kind vars k ≡ some string)
      → let r = set_str D vars (type_name string) k v in
        (r.1 ≡ ok tt) × (get_str D r.0 (type_name string) k ≡ ok v)
  get-set_str_string vars k v f = rw (set_str-set_kind vars string k v f) (
    set_kind_string vars k v,
    get_str-get_kind (set_kind D vars string k v).0 string k ∙ get_kind_string vars k v,
  )

  -- An `int` that is printed and set again gives the same text.
  pub get-set_str_int :
      (vars : Vars D.Value) (k : Bytes) (z : ℤ)
      → InRange z
      → (find_kind vars k ≡ none) ⊎ (find_kind vars k ≡ some int)
      → let r = set_str D vars (type_name int) k (print_int z) in
        (r.1 ≡ ok tt)
        × (lookup k r.0.ints ≡ some z)
        × (get_str D r.0 (type_name int) k ≡ ok (print_int z))
  get-set_str_int vars k z h f =
      rw (set_str-set_kind vars int k (print_int z) f, set_kind_int vars k z h)
        (
          refl,
          lookup-insert k k z vars.ints ∙ rw (bytes_eq_refl k),
          get_str-get_kind (record vars { ints = insert k z vars.ints }) int k
              ∙ get_kind_int vars k z,
        )
