-- ===== src/Parse/Arguments/Declared/Adding.antt =====
-- What one declaration adds to the tables of the parser (parse/argparse.cpp).
use aphros_test.Base.{
  ◌≡◌, refl, sym, subst, ap, ◌∙◌, ◌⊎◌, inl, inr, Bool, true, false, not, List, [], ◌∷◌, ◌++◌, some,
  Bool-cases, Bytes, codes, bytes_eq, bytes_eq_iff, bytes_eq_refl, if◌then◌else◌, arith, Error, ok,
  err, name_conflict, not_a_switch, inconsistent_names,
}
use aphros_test.Parse.Arguments.Declared.Invariant.{AllValues, AllTexts, Known, IsDeclared}
use aphros_test.Parse.Arguments.{
  Entry, State, Change, Value, int_value, set_value, strip_dash, is_optional, is_consistent,
  push_name, add_names, add_key, add_switch, add_variable,
}
use aphros_test.Parse.KeyMap.Laws.{contains-insert, lookup-insert}
use aphros_test.Parse.KeyMap.{insert, contains, lookup}
use aphros_test.Parse.Number.{pos, StreamNumber}
use aphros_test.Parse.Vars.{Vars, find_kind}
use aphros_test.Parse.Arguments.Declared.Tables.{
  insert-AllValues, AllValues-mono, AllTexts-mono, AllTexts-append, find_kind-set_value, known_set,
  find_kind_set,
}

module _ (D : StreamNumber) where
  -- What the loop over the names of an entry does.
  record Added (P : Entry → Type 0) (entry : Entry) (p q : State D) : Type 0 where
    all_values : P entry → AllValues P p.entries → AllValues P q.entries
    has : (j : Bytes) → contains j p.entries ≡ true → contains j q.entries ≡ true
    finds :
        (j : Bytes) (e : Entry)
        → contains j p.entries ≡ true
        → lookup j p.entries ≡ some e
        → lookup j q.entries ≡ some e
    known_same : q.known_args ≡ p.known_args
    pos_same : q.pos_keys ≡ p.pos_keys

  differ_keys :
      (n j : Bytes) (m : List (Bytes × Entry))
      → contains n m ≡ false
      → contains j m ≡ true
      → bytes_eq n j ≡ false
  differ_keys n j m h k = elim (Bool-cases (bytes_eq n j)) [
    | inl q ↦
        let same = (bytes_eq_iff n j).0 q in
        absurd (ground (arith, ap (λ (x : Bytes). contains x m) same, h, k))
    | inr q ↦ q
  ]

  add_names-Added :
      (P : Entry → Type 0) (entry : Entry) (names : List Bytes) (p q : State D)
      → add_names D entry names p ≡ (q, ok tt)
      → Added P entry p q
  unfolding add_names
  add_names-Added P entry [] p q h =
      let same : p ≡ q = ap (λ (x : Change D). x.0) h in
      subst (Added P entry p) same (record {
        all_values = λ x a. a;
        has = λ j x. x;
        finds = λ j e x y. y;
        known_same = refl;
        pos_same = refl;
      })
  add_names-Added P entry (n ∷ names) p q h = elim (Bool-cases (contains n p.entries)) [
    | inl x ↦
        let failed =
          sym (
            ap
              (λ (b : Bool).
                (if b then (p, err name_conflict) else add_names D entry names (one n)).1)
              x)
          ∙ ap (λ (c : Change D). c.1) h in
        absurd (ground (arith, failed))
    | inr x ↦
        let added =
          sym (
            ap (λ (b : Bool). if b then (p, err name_conflict) else add_names D entry names (one n))
              x)
          ∙ h in
        let next = add_names-Added P entry names (one n) q added in
        let other =
          λ (j : Bytes) (y : contains j p.entries ≡ true). differ_keys n j p.entries x y in
        record {
          all_values = λ y a. next.all_values y (insert-AllValues P n entry p.entries y a);
          has =
              λ j y. next.has j (ground (arith, contains-insert n j entry p.entries, other j y, y));
          finds = λ j e y z.
              next.finds j e (ground (arith, contains-insert n j entry p.entries, other j y, y)) (
                lookup-insert n j entry p.entries
                ∙ ap (λ (b : Bool). if b then some entry else lookup j p.entries) (other j y)
                ∙ z);
          known_same = next.known_same;
          pos_same = next.pos_same;
        }
  ]
    where
      one : Bytes → State D
      one n = record p { entries = insert n entry p.entries; names = push_name entry.key n p.names }

  failed_key :
      (entry : Entry) (value : Value D.Value) (s : State D) (e : Error)
      → (add_key D entry value (s, err e)).1 ≡ err e
  unfolding add_key
  failed_key entry value s e = refl

  found_contains :
      (k : Bytes) (m : List (Bytes × Entry)) (e : Entry) → lookup k m ≡ some e → contains k m ≡ true
  unfolding lookup contains
  found_contains k [] e h = absurd (cc)
  found_contains k ((j, v) ∷ m) e h = elim (Bool-cases (bytes_eq j k)) [
    | inl q ↦ rw q refl
    | inr q ↦
        rw q
          (found_contains k m e (sym (ap (λ (b : Bool). if b then some v else lookup k m) q) ∙ h))
  ]

  -- The keys that an entry may have while it is added.
  abbrev Nearly : Entry → State D → Entry → Type 0
  Nearly entry p e = (e.key ≡ entry.key) ⊎ Known D p e.key

  abbrev with_key : Entry → Value D.Value → State D → State D
  with_key entry value s = (add_key D entry value (s, ok tt)).0

  module _ (entry : Entry) (value : Value D.Value) (p s : State D) (w : IsDeclared D p)
      (own : contains entry.key p.entries ≡ false) (a : Added (Nearly entry p) entry p s) where
    key-Known : (j : Bytes) → (j ≡ entry.key) ⊎ Known D p j → Known D (with_key entry value s) j
    unfolding add_key
    key-Known j (inl e) =
        let (d, q) = find_kind_set entry.key value s.known_args in
        (d, ap (find_kind (set_value entry.key value s.known_args)) e ∙ q)
    key-Known j (inr (e, h)) =
        known_set entry.key j value s.known_args e
          (ap (λ (v : Vars D.Value). find_kind v j) a.known_same ∙ h)

    key_entries :
        AllValues (λ e. Known D (with_key entry value s) e.key) (with_key entry value s).entries
    unfolding add_key
    key_entries =
        insert-AllValues (λ e. Known D (with_key entry value s) e.key) entry.key entry s.entries
          (key-Known entry.key (inl refl))
          (AllValues-mono (Nearly entry p) (λ e. Known D (with_key entry value s) e.key) s.entries
            (λ e. key-Known e.key)
            (a.all_values (inl refl) (
              AllValues-mono (λ e. Known D p e.key) (Nearly entry p) p.entries (λ e k. inr k)
                w.entries_known)))

    key_has :
        (j : Bytes)
        → contains j s.entries ≡ true
        → contains j (insert entry.key entry s.entries) ≡ true
    key_has j h = ground (arith, contains-insert entry.key j entry s.entries, h)

    key_there : contains entry.key (insert entry.key entry s.entries) ≡ true
    key_there =
        ground (arith, contains-insert entry.key entry.key entry s.entries, bytes_eq_refl entry.key)

    key_positional :
        AllTexts
          (λ k. contains k (with_key entry value s).entries ≡ true)
          (with_key entry value s).pos_keys
    unfolding add_key
    key_positional =
        let old =
          AllTexts-mono (λ k. contains k p.entries ≡ true)
            (λ k. contains k (insert entry.key entry s.entries) ≡ true) p.pos_keys
            (λ k h. key_has k (a.has k h)) w.positional_known in
        let kept =
          subst (AllTexts (λ k. contains k (insert entry.key entry s.entries) ≡ true))
            (sym a.pos_same) old in
        go entry.optional kept (
          AllTexts-append (λ k. contains k (insert entry.key entry s.entries) ≡ true) s.pos_keys
            entry.key kept key_there)
      where
        go :
            (b : Bool)
            → AllTexts (λ k. contains k (insert entry.key entry s.entries) ≡ true) s.pos_keys
            → AllTexts
                (λ k. contains k (insert entry.key entry s.entries) ≡ true)
                (s.pos_keys ++ (entry.key ∷ []))
            → AllTexts
                (λ k. contains k (insert entry.key entry s.entries) ≡ true)
                (if b then s.pos_keys else s.pos_keys ++ (entry.key ∷ []))
        go true x y = x
        go false x y = y

    not_help : bytes_eq entry.key (codes "help") ≡ false
    not_help =
        let (e, found, key, default) = w.help_entry in
        differ_keys entry.key (codes "help") p.entries own
          (found_contains (codes "help") p.entries e found)

    key_IsDeclared : IsDeclared D (with_key entry value s)
    unfolding add_key
    key_IsDeclared =
        let (e, found, key, default) = w.help_entry in
        let there = found_contains (codes "help") p.entries e found in
        record {
          entries_known = key_entries;
          positional_known = key_positional;
          help_entry = (
            e,
            lookup-insert entry.key (codes "help") entry s.entries
                ∙ ap (λ (b : Bool). if b then some entry else lookup (codes "help") s.entries)
                    not_help
                ∙ a.finds (codes "help") e there found,
            key,
            default,
          );
          help_int =
              find_kind-set_value entry.key (codes "help") value s.known_args not_help
              ∙ ap (λ (v : Vars D.Value). find_kind v (codes "help")) a.known_same
              ∙ w.help_int;
        }

  -- The entry of a key of its own, with its default, is added to tables that fit together.
  add_key-IsDeclared :
      (entry : Entry) (value : Value D.Value) (names : List Bytes) (p q : State D)
      → IsDeclared D p
      → contains entry.key p.entries ≡ false
      → add_key D entry value (add_names D entry names p) ≡ (q, ok tt)
      → IsDeclared D q
  add_key-IsDeclared entry value names p q w own h = go (add_names D entry names p) refl h
    where
      go :
          (c : Change D)
          → add_names D entry names p ≡ c
          → add_key D entry value c ≡ (q, ok tt)
          → IsDeclared D q
      go (s, err e) x y =
          absurd (ground (arith, failed_key entry value s e, ap (λ (c : Change D). c.1) y))
      go (s, ok u) x y = subst (IsDeclared D) (ap (λ (c : Change D). c.0) y) (
          key_IsDeclared entry value p s w own (add_names-Added (Nearly entry p) entry names p s x))

  guarded :
      (b : Bool) (p q : State D) (e : Error) (c : Change D)
      → (if not b then (p, err e) else c) ≡ (q, ok tt)
      → c ≡ (q, ok tt)
  guarded true p q e c h = h
  guarded false p q e c h = absurd (ground (arith, ap (λ (c : Change D). c.1) h))

  -- `AddSwitch`, where its key is new.
  pub add_switch-IsDeclared :
      (n : Bytes) (names : List Bytes) (p q : State D)
      → IsDeclared D p
      → contains (strip_dash n) p.entries ≡ false
      → add_switch D (n ∷ names) p ≡ (q, ok tt)
      → IsDeclared D q
  unfolding add_switch
  add_switch-IsDeclared n names p q w own h =
      add_key-IsDeclared
        (record { key = strip_dash n; optional = is_optional D n; hasdefault = true; nargs = 0 })
        (int_value (pos 0)) (n ∷ names) p q w own
        (guarded (is_consistent D (is_optional D n) names) p q inconsistent_names _
          (guarded (is_optional D n) p q not_a_switch _ h))

  -- `AddVariable`, where its key is new.
  pub add_variable-IsDeclared :
      (n : Bytes) (names : List Bytes) (value : Value D.Value) (hasdefault : Bool) (p q : State D)
      → IsDeclared D p
      → contains (strip_dash n) p.entries ≡ false
      → add_variable D (n ∷ names) value hasdefault p ≡ (q, ok tt)
      → IsDeclared D q
  unfolding add_variable
  add_variable-IsDeclared n names value hasdefault p q w own h =
      add_key-IsDeclared
        (record {
          key = strip_dash n;
          optional = is_optional D n;
          hasdefault = hasdefault;
          nargs = 1;
        })
        value (n ∷ names) p q w own
        (guarded (is_consistent D (is_optional D n) names) p q inconsistent_names _ h)
