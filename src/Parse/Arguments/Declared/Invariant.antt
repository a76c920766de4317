-- ===== src/Parse/Arguments/Declared/Invariant.antt =====
-- Parsers whose tables fit together, and `ParseArgs` on them.
use aphros_test.Base.{
  ◌≡◌, refl, sym, subst, ap, ◌∙◌, inl, inr, Bool, true, false, List, [], ◌∷◌, Option, none, some,
  Bool-cases, Bytes, codes, bytes_eq, if◌then◌else◌, arith, out_of_range, unknown_type, Result, ok,
  err, ◌>>=◌,
}
use aphros_test.Parse.Arguments.Declared.Outcomes.{
  Returns, Returns-bind, Returns-mono, Has, Kept, assign-Returns,
}
use aphros_test.Parse.Arguments.Read.{Args, assign_known, set_defaults}
use aphros_test.Parse.Arguments.{Entry, State}
use aphros_test.Parse.KeyMap.{contains, lookup}
use aphros_test.Parse.Number.{StreamNumber, print_int}
use aphros_test.Parse.Vars.Types.{kind_of-type_name}
use aphros_test.Parse.Vars.{
  Kind, string, int, double, vect, type_name, find_kind, get_type_name, get_kind, get_str, kind_of,
  print_vect,
}

-- Every value of a map, and every text of a list.
abbrev pub AllValues : {V : Type 0} → (V → Type 0) → List (Bytes × V) → Type 0
AllValues P [] = Unit {0}
AllValues P ((k, v) ∷ m) = P v × AllValues P m

abbrev pub AllTexts : (Bytes → Type 0) → List Bytes → Type 0
AllTexts P [] = Unit {0}
AllTexts P (k ∷ l) = P k × AllTexts P l

pub lookup-AllValues :
    {V : Type 0} (P : V → Type 0) (k : Bytes) (m : List (Bytes × V)) (v : V)
    → AllValues P m
    → lookup k m ≡ some v
    → P v
unfolding lookup
lookup-AllValues P k [] v h e = absurd (cc)
lookup-AllValues P k ((j, w) ∷ m) v h e = elim (Bool-cases (bytes_eq j k)) [
  | inl q ↦
      let found : (if bytes_eq j k then some w else lookup k m) ≡ some w = rw q refl in
      subst P (ground (arith, e, found)) h.0
  | inr q ↦
      let missed : (if bytes_eq j k then some w else lookup k m) ≡ lookup k m = rw q refl in
      lookup-AllValues P k m v h.1 (sym missed ∙ e)
]

pub contains-lookup :
    {V : Type 0} (k : Bytes) (m : List (Bytes × V))
    → contains k m ≡ true
    → (v : V) × (lookup k m ≡ some v)
unfolding contains lookup
contains-lookup k [] h = absurd (cc)
contains-lookup k ((j, w) ∷ m) h = elim (Bool-cases (bytes_eq j k)) [
  | inl q ↦ (w, rw q refl)
  | inr q ↦ let (v, e) = contains-lookup k m (ground (arith, h, q)) in (v, rw q e)
]

module _ (D : StreamNumber) where
  -- The type of a key is known.
  abbrev pub Known : State D → Bytes → Type 0
  Known p k = (e : Kind) × (find_kind p.known_args k ≡ some e)

  -- Every entry has a type, every positional key an entry, and the switch for help a default.
  pub record IsDeclared (p : State D) : Type 0 where
    pub entries_known : AllValues (λ e. Known p e.key) p.entries
    pub positional_known : AllTexts (λ k. contains k p.entries ≡ true) p.pos_keys
    pub help_entry :
        (e : Entry) × (lookup (codes "help") p.entries ≡ some e)
        × (e.key ≡ codes "help")
        × (e.hasdefault ≡ true)
    pub help_int : find_kind p.known_args (codes "help") ≡ some int

  get_type_name-find_kind :
      (vars : Args D) (k : Bytes) (e : Kind)
      → find_kind vars k ≡ some e
      → get_type_name vars k ≡ type_name e
  unfolding get_type_name
  get_type_name-find_kind vars k e h =
      ap (λ (x : Option Kind). elim x [ none ↦ [] | some e ↦ type_name e ]) h

  abbrev taken : {V : Type 0} → Option V → Result V
  taken x = elim x [ none ↦ err out_of_range | some v ↦ ok v ]

  abbrev printed : {V : Type 0} → (V → Bytes) → Option V → Result Bytes
  printed to_str x = elim (taken x) [ ok v ↦ ok (to_str v) | err e ↦ err e ]

  found_value :
      {V : Type 0} (to_str : V → Bytes) (k : Bytes) (m : List (Bytes × V))
      → contains k m ≡ true
      → (s : Bytes) × (printed to_str (lookup k m) ≡ ok s)
  found_value to_str k m h = let (v, q) = contains-lookup k m h in (to_str v, ap (printed to_str) q)

  -- The map of the type of a variable holds it.
  get_kind_found :
      (vars : Args D) (k : Bytes) (e : Kind)
      → find_kind vars k ≡ some e
      → (v : Bytes) × (get_kind D vars e k ≡ ok v)
  unfolding get_kind find_kind
  get_kind_found vars k string h =
      let (v, q) = contains-lookup k vars.strings (ground (arith, h)) in (v, ap taken q)
  get_kind_found vars k int h = found_value print_int k vars.ints (ground (arith, h))
  get_kind_found vars k double h = found_value D.print k vars.doubles (ground (arith, h))
  get_kind_found vars k vect h = found_value (print_vect D) k vars.vects (ground (arith, h))

  pub get_str_found :
      (vars : Args D) (k : Bytes) (e : Kind)
      → find_kind vars k ≡ some e
      → (v : Bytes) × (get_str D vars (get_type_name vars k) k ≡ ok v)
  unfolding get_str
  get_str_found vars k e h =
      let (v, q) = get_kind_found vars k e h in
      (
        v,
        ap (λ (t : Bytes). get_str D vars t k) (get_type_name-find_kind vars k e h)
            ∙ ap
                (λ (x : Option Kind). elim x [
                  | none ↦ err unknown_type
                  | some e ↦ get_kind D vars e k
                ])
                (kind_of-type_name e)
            ∙ q,
      )

  pub assign_known-Returns :
      (p : State D) (k v : Bytes) (args : Args D) (e : Kind)
      → find_kind p.known_args k ≡ some e
      → Returns (Kept D e k args) (assign_known D p k v args)
  unfolding assign_known
  assign_known-Returns p k v args e h =
      assign-Returns D args e (get_type_name p.known_args k) k v
        (ap kind_of (get_type_name-find_kind p.known_args k e h) ∙ kind_of-type_name e)

  -- Everything that is there stays there.
  abbrev pub Grows : Args D → Args D → Type 0
  Grows args set = (j : Bytes) → Has D j args → Has D j set

  -- The default of the help is there, if the entries hold it.
  abbrev pub HelpSet : List (Bytes × Entry) → Args D → Type 0
  HelpSet m set =
      (e : Entry)
      → lookup (codes "help") m ≡ some e
      → e.key ≡ codes "help"
      → e.hasdefault ≡ true
      → Has D (codes "help") set

  HelpSet-off :
      (n : Bytes) (e : Entry) (m : List (Bytes × Entry)) (set : Args D)
      → e.hasdefault ≡ false
      → HelpSet m set
      → HelpSet ((n, e) ∷ m) set
  unfolding lookup
  HelpSet-off n e m set off h f q r s = elim (Bool-cases (bytes_eq n (codes "help"))) [
    | inl x ↦
        let same : (if bytes_eq n (codes "help") then some e else lookup (codes "help") m)
            ≡ some e =
          rw x refl in
        let both : e ≡ f = ground (arith, q, same) in
        absurd (ground (arith, off, s, ap (λ (y : Entry). y.hasdefault) both))
    | inr x ↦
        let rest : (if bytes_eq n (codes "help") then some e else lookup (codes "help") m)
            ≡ lookup (codes "help") m =
          rw x refl in
        h f (sym rest ∙ q) r s
  ]

  HelpSet-on :
      (n : Bytes) (e : Entry) (m : List (Bytes × Entry)) (set : Args D)
      → (e.key ≡ codes "help" → Has D (codes "help") set)
      → HelpSet m set
      → HelpSet ((n, e) ∷ m) set
  unfolding lookup
  HelpSet-on n e m set on h f q r s = elim (Bool-cases (bytes_eq n (codes "help"))) [
    | inl x ↦
        let same : (if bytes_eq n (codes "help") then some e else lookup (codes "help") m)
            ≡ some e =
          rw x refl in
        let both : e ≡ f = ground (arith, q, same) in on (ap (λ (y : Entry). y.key) both ∙ r)
    | inr x ↦
        let rest : (if bytes_eq n (codes "help") then some e else lookup (codes "help") m)
            ≡ lookup (codes "help") m =
          rw x refl in
        h f (sym rest ∙ q) r s
  ]

  help_there :
      (p : State D) (e : Entry) (d : Kind) (args set last : Args D)
      → e.key ≡ codes "help"
      → find_kind p.known_args e.key ≡ some d
      → find_kind p.known_args (codes "help") ≡ some int
      → Kept D d e.key args set
      → Grows set last
      → Has D (codes "help") last
  help_there p e d args set last r q h k g =
      let both : some d ≡ some int = sym q ∙ ap (find_kind p.known_args) r ∙ h in
      let kind : d ≡ int = cc in
      g (codes "help") (subst (λ (x : Bytes). Has D x set) r (k.there kind))

  abbrev pub DefaultsSet : List (Bytes × Entry) → Args D → Args D → Type 0
  DefaultsSet m args set = Grows args set × HelpSet m set

  set_default : State D → List (Bytes × Entry) → Args D → Entry → Bool → Result (Args D)
  set_default p m args e b =
      if b
      then (get_str D p.known_args (get_type_name p.known_args e.key) e.key >>= λ v.
          assign_known D p e.key v args >>= λ set. set_defaults D p m set)
      else set_defaults D p m args

  set_defaults_cons :
      (p : State D) (n : Bytes) (e : Entry) (m : List (Bytes × Entry)) (args : Args D)
      → set_defaults D p ((n, e) ∷ m) args ≡ set_default p m args e e.hasdefault
  unfolding set_defaults set_default
  set_defaults_cons p n e m args = refl

  set_default_on :
      (p : State D) (m : List (Bytes × Entry)) (args : Args D) (e : Entry) (v : Bytes)
      → get_str D p.known_args (get_type_name p.known_args e.key) e.key ≡ ok v
      → set_default p m args e true
        ≡ (assign_known D p e.key v args >>= λ set. set_defaults D p m set)
  unfolding set_default
  set_default_on p m args e v h =
      ap
        (λ (x : Result Bytes).
          x >>= λ v. assign_known D p e.key v args >>= λ set. set_defaults D p m set)
        h

  -- The defaults are set with no error but one of the four, and the one of the help is there.
  pub set_defaults-Returns :
      (p : State D) (m : List (Bytes × Entry)) (args : Args D)
      → find_kind p.known_args (codes "help") ≡ some int
      → AllValues (λ e. Known p e.key) m
      → Returns (DefaultsSet m args) (set_defaults D p m args)
  unfolding set_default
  set_defaults-Returns p [] args h a =
      unfold set_defaults lookup in (λ j q. q, λ e q r s. absurd (cc))
  set_defaults-Returns p ((n, e) ∷ m) args h ((d, q), a) = elim (Bool-cases e.hasdefault) [
    | inr off ↦
        let same = set_defaults_cons p n e m args ∙ ap (set_default p m args e) off in
        subst (Returns (DefaultsSet ((n, e) ∷ m) args)) (sym same) (
          Returns-mono (DefaultsSet m args) (DefaultsSet ((n, e) ∷ m) args)
            (set_defaults D p m args) (λ set (g, f). (g, HelpSet-off n e m set off f))
            (set_defaults-Returns p m args h a))
    | inl on ↦
        let (v, text) = get_str_found p.known_args e.key d q in
        let same =
          set_defaults_cons p n e m args
          ∙ ap (set_default p m args e) on
          ∙ set_default_on p m args e v text in
        subst (Returns (DefaultsSet ((n, e) ∷ m) args)) (sym same) (
          Returns-bind (Kept D d e.key args) (DefaultsSet ((n, e) ∷ m) args)
            (assign_known D p e.key v args) (λ set. set_defaults D p m set)
            (assign_known-Returns p e.key v args d q)
            (λ set k.
              Returns-mono (DefaultsSet m set) (DefaultsSet ((n, e) ∷ m) args)
                (set_defaults D p m set)
                (λ last (g, f). (
                  λ j x. g j (k.kept j x),
                  HelpSet-on n e m last (λ r. help_there p e d args set last r q h k g) f,
                ))
                (set_defaults-Returns p m set h a)))
  ]
