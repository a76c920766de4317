-- ===== src/Parse/Arguments/Declared/Arguments.antt =====
-- `ParseArgs` of a declared parser.
use aphros_test.Base.{
  ℕ, zero, suc, ◌+◌, ◌≡◌, refl, sym, subst, ap, ◌∙◌, inl, inr, Bool, true, false, not, ◌&&◌, List,
  [], ◌∷◌, Option, none, some, Option-cases, Bytes, codes, bytes_eq, bytes_eq_refl, if◌then◌else◌,
  get_elem?, arith, not_an_int, key_not_found, Result, ok, err, ◌>>=◌,
}
use aphros_test.Parse.Arguments.Declared.Invariant.{
  AllTexts, lookup-AllValues, contains-lookup, Known, IsDeclared, get_str_found,
  assign_known-Returns, Grows, set_defaults-Returns, DefaultsSet,
}
use aphros_test.Parse.Arguments.Declared.Outcomes.{
  Returns, Returns-bind, Returns-mono, Any, Has, Kept,
}
use aphros_test.Parse.Arguments.Read.{
  Args, Expects, name, value, at, drop, is_empty, fail, rassert, assign_known, set_defaults,
  read_positional, read_switch, read_args, check_missing, check_options, get_options, find_text,
  is_set, exit, finish, parse_args,
}
use aphros_test.Parse.Arguments.{Entry, State, is_optional}
use aphros_test.Parse.KeyMap.Laws.{contains-insert}
use aphros_test.Parse.KeyMap.{insert, contains, lookup}
use aphros_test.Parse.Number.{ℤ, pos, negsuc, StreamNumber}
use aphros_test.Parse.Vars.{no_vars, Kind, int, type_name, find_kind, get_type_name, get_str}

get_elem?-AllTexts :
    (P : Bytes → Type 0) (l : List Bytes) (i : ℕ) (k : Bytes)
    → AllTexts P l
    → get_elem? l i ≡ some k
    → P k
get_elem?-AllTexts P [] i k h e = absurd (cc)
get_elem?-AllTexts P (x ∷ l) zero k h e = subst P (cc) h.0
get_elem?-AllTexts P (x ∷ l) (suc i) k h e = get_elem?-AllTexts P l i k h.1 e

drop-AllTexts : (P : Bytes → Type 0) (i : ℕ) (l : List Bytes) → AllTexts P l → AllTexts P (drop i l)
drop-AllTexts P zero l h = h
drop-AllTexts P (suc i) [] h = h
drop-AllTexts P (suc i) (k ∷ l) h = drop-AllTexts P i l h.1

module _ (D : StreamNumber) where
  fail-Grows : (args : Args D) → Grows D args (fail D args)
  unfolding fail
  fail-Grows args j h = ground (arith, contains-insert (codes "FAIL") j (pos 1) args.ints, h)

  rassert-Grows : (b : Bool) (args : Args D) → Grows D args (rassert D b args)
  unfolding rassert
  rassert-Grows true args j h = h
  rassert-Grows false args j h = fail-Grows args j h

  module _ (p : State D) (w : IsDeclared D p) where
    entry-Known : (k : Bytes) (e : Entry) → lookup k p.entries ≡ some e → Known D p e.key
    entry-Known k e h = lookup-AllValues (λ e. Known D p e.key) k p.entries e w.entries_known h

    assign-Grows :
        (e : Entry) (v : Bytes) (args : Args D)
        → Known D p e.key
        → Returns (Grows D args) (assign_known D p e.key v args)
    assign-Grows e v args (d, h) =
        Returns-mono (Kept D d e.key args) (Grows D args) (assign_known D p e.key v args)
          (λ set k. k.kept) (assign_known-Returns D p e.key v args d h)

    at_key : (k : Bytes) (e : Entry) → lookup k p.entries ≡ some e → at k p.entries ≡ ok e
    at_key k e h = ap (λ (x : Option Entry). elim x [ none ↦ err key_not_found | some v ↦ ok v ]) h

    read_positional-Returns :
        (ipos : ℕ) (s : Bytes) (args : Args D)
        → Returns (Grows D args) (read_positional D p ipos s args)
    unfolding read_positional
    read_positional-Returns ipos s args = go (get_elem? p.pos_keys ipos) refl
      where
        go :
            (x : Option Bytes)
            → get_elem? p.pos_keys ipos ≡ x
            → Returns (Grows D args) (elim x [
              | none ↦ ok (fail D args)
              | some k ↦ at k p.entries >>= λ e. assign_known D p e.key s args
            ])
        go none h = fail-Grows args
        go (some k) h =
            let there =
              get_elem?-AllTexts (λ k. contains k p.entries ≡ true) p.pos_keys ipos k
                w.positional_known h in
            let (e, found) = contains-lookup k p.entries there in
            subst
              (λ (x : Result Entry).
                Returns (Grows D args) (x >>= λ e. assign_known D p e.key s args))
              (sym (at_key k e found)) (assign-Grows e s args (entry-Known k e found))

    read_switch-Returns :
        (e : Entry) (args : Args D)
        → Known D p e.key
        → Returns (Grows D args) (read_switch D p e args)
    unfolding read_switch
    read_switch-Returns e args h = go (bytes_eq (get_type_name p.known_args e.key) (type_name int))
      where
        go :
            (b : Bool)
            → Returns
                (Grows D args)
                (if b then assign_known D p e.key (codes "1") args else err not_an_int)
        go true = assign-Grows e (codes "1") args h
        go false = refl

    abbrev Awaits : Expects → Type 0
    Awaits name = Unit {0}
    Awaits (value e) = Known D p e.key

    abbrev Read : Args D → ℕ × Args D → Type 0
    Read args (ipos, set) = Grows D args set

    Read-trans : (a b : Args D) → Grows D a b → (r : ℕ × Args D) → Read b r → Read a r
    Read-trans a b g (i, c) h = λ j x. h j (g j x)

    read_args-Returns :
        (x : Expects) (ipos : ℕ) (argv : List Bytes) (args : Args D)
        → Awaits x
        → Returns (Read args) (read_args D p x ipos argv args)
    unfolding read_args
    read_args-Returns x ipos [] args h = λ j q. q
    read_args-Returns (value e) ipos (s ∷ argv) args h =
        Returns-bind (Grows D args) (Read args) (assign_known D p e.key s args)
          (λ set. read_args D p name ipos argv set) (assign-Grows e s args h)
          (λ set g.
            Returns-mono (Read set) (Read args) (read_args D p name ipos argv set)
              (Read-trans args set g) (read_args-Returns name ipos argv set tt))
    read_args-Returns name ipos (s ∷ argv) args h =
        optional
          (λ (x : Expects) (i : ℕ) (set : Args D) (q : Awaits x). read_args-Returns x i argv set q)
          (is_optional D s)
      where
        Later : Type 0
        Later =
            (x : Expects) (i : ℕ) (set : Args D)
            → Awaits x
            → Returns (Read set) (read_args D p x i argv set)

        after :
            Later
            → (i : ℕ) (r : Result (Args D)) → Returns (Grows D args) r
            → Returns (Read args) (r >>= λ set. read_args D p name i argv set)
        after ih i r k =
            Returns-bind (Grows D args) (Read args) r (λ set. read_args D p name i argv set) k
              (λ set g.
                Returns-mono (Read set) (Read args) (read_args D p name i argv set)
                  (Read-trans args set g) (ih name i set tt))

        entry :
            Later
            → (e : Entry) → Known D p e.key
            → (n : ℕ)
            → Returns (Read args) (elim n [
              | zero ↦ read_switch D p e args >>= λ set. read_args D p name ipos argv set
              | suc n ↦ read_args D p (value e) ipos argv args
            ])
        entry ih e k zero = after ih ipos (read_switch D p e args) (read_switch-Returns e args k)
        entry ih e k (suc n) = ih (value e) ipos args k

        found :
            Later
            → (x : Option Entry) → lookup s p.entries ≡ x
            → Returns (Read args) (elim x [
              | none ↦ read_args D p name ipos argv (fail D args)
              | some e ↦ elim e.nargs [
                | zero ↦ read_switch D p e args >>= λ set. read_args D p name ipos argv set
                | suc n ↦ read_args D p (value e) ipos argv args
              ]
            ])
        found ih none q =
            Returns-mono (Read (fail D args)) (Read args)
              (read_args D p name ipos argv (fail D args))
              (Read-trans args (fail D args) (fail-Grows args)) (ih name ipos (fail D args) tt)
        found ih (some e) q = entry ih e (entry-Known s e q) e.nargs

        optional :
            Later
            → (b : Bool)
            → Returns (Read args) (elim b [
              | true ↦ elim (lookup s p.entries) [
                | none ↦ read_args D p name ipos argv (fail D args)
                | some e ↦ elim e.nargs [
                  | zero ↦ read_switch D p e args >>= λ set. read_args D p name ipos argv set
                  | suc n ↦ read_args D p (value e) ipos argv args
                ]
              ]
              | false ↦
                  read_positional D p ipos s args >>= λ set. read_args D p name (ipos + 1) argv set
            ])
        optional ih true = found ih (lookup s p.entries) refl
        optional ih false =
            after ih (ipos + 1) (read_positional D p ipos s args)
              (read_positional-Returns ipos s args)

    check_missing-Returns :
        (l : List Bytes) (args : Args D)
        → AllTexts (λ k. contains k p.entries ≡ true) l
        → Returns (Grows D args) (check_missing D p l args)
    unfolding check_missing
    check_missing-Returns [] args h = λ j q. q
    check_missing-Returns (k ∷ l) args (there, h) =
        let (e, found) = contains-lookup k p.entries there in
        subst
          (λ (x : Result Entry).
            Returns (Grows D args) (x >>= λ e. check_missing D p l (rassert D e.hasdefault args)))
          (sym (at_key k e found))
          (Returns-mono (Grows D (rassert D e.hasdefault args)) (Grows D args)
            (check_missing D p l (rassert D e.hasdefault args))
            (λ set g j x. g j (rassert-Grows e.hasdefault args j x))
            (check_missing-Returns l (rassert D e.hasdefault args) h))

    is_set_lem : (k : Bytes) (args : Args D) → Has D k args → (b : Bool) × (is_set D k args ≡ ok b)
    unfolding is_set
    is_set_lem k args h =
        let (z, e) = contains-lookup k args.ints h in
        (
          sign z,
          ap
                (λ (x : Option ℤ). elim x [
                  | none ↦ err key_not_found
                  | some (pos zero) ↦ ok false
                  | some (pos (suc n)) ↦ ok true
                  | some (negsuc n) ↦ ok true
                ])
                e
              ∙ sign_lem z,
        )
      where
        sign : ℤ → Bool
        sign (pos zero) = false
        sign (pos (suc n)) = true
        sign (negsuc n) = true

        sign_lem :
            (z : ℤ)
            → elim (some z) as (λ x. Result Bool) [
              | none ↦ err key_not_found
              | some (pos zero) ↦ ok false
              | some (pos (suc n)) ↦ ok true
              | some (negsuc n) ↦ ok true
            ]
              ≡ ok (sign z)
        sign_lem (pos zero) = refl
        sign_lem (pos (suc n)) = refl
        sign_lem (negsuc n) = refl

    typed :
        (args : Args D) (k : Bytes)
        → is_empty (get_type_name args k) ≡ false
        → (d : Kind) × (find_kind args k ≡ some d)
    unfolding get_type_name
    typed args k h = elim (Option-cases (find_kind args k)) [
      | inl e ↦ absurd (ground (arith, h, e))
      | inr (d, e) ↦ (d, e)
    ]

    check_options-Returns :
        (m : List (Bytes × Entry)) (args : Args D)
        → Returns (Grows D args) (check_options D p m args)
    unfolding check_options
    check_options-Returns [] args = λ j q. q
    check_options-Returns ((k, e) ∷ m) args =
        compared (λ (a : Args D). check_options-Returns m a)
          (not (is_empty (get_type_name args k)) && not (is_empty (get_options D p k)))
          (λ q. typed args k (ground (arith, q)))
      where
        Known' : Bytes → Type 0
        Known' k = (d : Kind) × (find_kind args k ≡ some d)

        Later : Type 0
        Later = (a : Args D) → Returns (Grows D a) (check_options D p m a)

        checked :
            Later
            → (v : Bytes)
            → Returns
                (Grows D args)
                (check_options D p m (rassert D (find_text v (get_options D p k)) args))
        checked ih v =
            Returns-mono (Grows D (rassert D (find_text v (get_options D p k)) args)) (Grows D args)
              (check_options D p m (rassert D (find_text v (get_options D p k)) args))
              (λ set g j x. g j (rassert-Grows (find_text v (get_options D p k)) args j x))
              (ih (rassert D (find_text v (get_options D p k)) args))

        compared :
            Later
            → (b : Bool) → (b ≡ true → Known' k)
            → Returns (Grows D args) (
                if b
                then (get_str D args (get_type_name args k) k >>= λ v.
                    check_options D p m (rassert D (find_text v (get_options D p k)) args))
                else check_options D p m args)
        compared ih true f =
            let (d, q) = f refl in
            let (v, text) = get_str_found D args k d q in
            subst
              (λ (x : Result Bytes).
                Returns (Grows D args) (
                  x >>= λ v.
                  check_options D p m (rassert D (find_text v (get_options D p k)) args)))
              (sym text) (checked ih v)
        compared ih false f = ih args

    help_shown :
        (args : Args D) (ipos : ℕ) (b : Bool)
        → Has D (codes "FAIL") args
        → Returns Any (
            if b
            then ok (exit D (pos 0) args)
            else (check_missing D p (drop ipos p.pos_keys) args >>= λ complete.
                check_options D p p.entries complete >>= λ checked.
                is_set D (codes "FAIL") checked >>= λ failed.
                ok (if failed then exit D (pos 1) checked else checked)))
    help_shown args ipos true h = tt
    help_shown args ipos false h =
        Returns-bind (Grows D args) Any (check_missing D p (drop ipos p.pos_keys) args) _
          (check_missing-Returns (drop ipos p.pos_keys) args
            (drop-AllTexts (λ k. contains k p.entries ≡ true) ipos p.pos_keys w.positional_known))
          (λ complete g.
            Returns-bind (Grows D complete) Any (check_options D p p.entries complete) _
              (check_options-Returns p.entries complete)
              (λ checked g'.
                let (b, e) =
                  is_set_lem (codes "FAIL") checked (g' (codes "FAIL") (g (codes "FAIL") h)) in
                subst
                  (λ (x : Result Bool).
                    Returns Any
                      (x >>= λ failed. ok (if failed then exit D (pos 1) checked else checked)))
                  (sym e) tt))

    finish-Returns :
        (ipos : ℕ) (args : Args D)
        → Has D (codes "FAIL") args
        → Has D (codes "help") args
        → Returns Any (finish D p ipos args)
    unfolding finish
    finish-Returns ipos args h k =
        let (b, e) = is_set_lem (codes "help") args k in
        subst
          (λ (x : Result Bool). Returns Any (
            x >>= λ help.
            if help
            then ok (exit D (pos 0) args)
            else (check_missing D p (drop ipos p.pos_keys) args >>= λ complete.
                check_options D p p.entries complete >>= λ checked.
                is_set D (codes "FAIL") checked >>= λ failed.
                ok (if failed then exit D (pos 1) checked else checked))))
          (sym e) (help_shown args ipos b h)

    -- Whatever the arguments are, `ParseArgs` of a parser whose tables fit together gives variables,
    -- or an error that comes from the text of an argument: a text that is no value of its
    -- variable's type, a change of type, or a switch that is no `int`. No look-up in the tables fails.
    pub parse_args-Returns : (argv : List Bytes) → Returns Any (parse_args D p argv)
    unfolding parse_args
    parse_args-Returns argv =
        let start : Args D = record no_vars { ints = insert (codes "FAIL") (pos 0) [] } in
        let there : Has D (codes "FAIL") start =
          contains-insert (codes "FAIL") (codes "FAIL") (pos 0) []
          ∙ rw (bytes_eq_refl (codes "FAIL")) refl in
        let (e, found, key, default) = w.help_entry in
        Returns-bind (DefaultsSet D p.entries start) Any (set_defaults D p p.entries start) _
          (set_defaults-Returns D p p.entries start w.help_int w.entries_known)
          (λ args (g, help).
            Returns-bind (Read args) Any (read_args D p name 0 argv args) _
              (read_args-Returns name 0 argv args tt)
              (λ (ipos, set) g'.
                finish-Returns ipos set (g' (codes "FAIL") (g (codes "FAIL") there))
                  (g' (codes "help") (help e found key default))))
