-- ===== src/Parse/KeyMap/Laws.antt =====
-- Laws of the map: lookup after insert and erase, and the order of the keys.
use aphros_test.Base.{
  ◌++◌, sym, ap, ◌∙◌, subst, append-nil, append_assoc, true, false, List, [], ◌∷◌, none, some, ◌≡◌,
  refl, arith, Bytes, bytes_eq, bytes_less, bytes_eq_iff, if◌then◌else◌,
}
use aphros_test.Parse.KeyMap.{lookup, insert, erase, contains, Above, IsSorted}
use aphros_test.Parse.KeyMap.Order.{bytes_less_irrefl, bytes_less_trans, bytes_less_total}

module _ {ℓ} {V : Type ℓ} where
  pub lookup-insert :
      (k j : Bytes) (v : V) (m : List (Bytes × V))
      → lookup j (insert k v m) ≡ (if bytes_eq k j then some v else lookup j m)
  unfolding lookup insert
  lookup-insert k j v [] = refl
  lookup-insert k j v ((i, w) ∷ m) =
      ground (arith, bytes_eq_iff k j, bytes_eq_iff i k, bytes_eq_iff i j, lookup-insert k j v m)

  pub contains-insert :
      (k j : Bytes) (v : V) (m : List (Bytes × V))
      → contains j (insert k v m) ≡ (if bytes_eq k j then true else contains j m)
  unfolding contains insert
  contains-insert k j v [] = refl
  contains-insert k j v ((i, w) ∷ m) =
      ground (arith, bytes_eq_iff k j, bytes_eq_iff i k, bytes_eq_iff i j, contains-insert k j v m)

  pub Above-trans :
      (k j : Bytes) (m : List (Bytes × V)) → bytes_less k j ≡ true → Above j m → Above k m
  Above-trans k j [] h a = tt
  Above-trans k j ((i, w) ∷ m) h a = (bytes_less_trans k j i h a.0, Above-trans k j m h a.1)

  pub insert-Above :
      (i k : Bytes) (v : V) (m : List (Bytes × V))
      → bytes_less i k ≡ true
      → Above i m
      → Above i (insert k v m)
  unfolding insert
  insert-Above i k v [] h a = (h, tt)
  insert-Above i k v ((j, w) ∷ m) h a = ground (arith, insert-Above i k v m h a.1)

  -- Insertion keeps the keys ascending.
  pub insert-IsSorted :
      (k : Bytes) (v : V) (m : List (Bytes × V)) → IsSorted m → IsSorted (insert k v m)
  unfolding insert
  insert-IsSorted k v [] s = (tt, tt)
  insert-IsSorted k v ((j, w) ∷ m) s = ground (
    arith,
    bytes_eq_iff j k,
    insert-IsSorted k v m s.1,
    insert-Above j k v m,
    Above-trans k j m,
    bytes_less_total j k,
  )

  erase-Above : (i k : Bytes) (m : List (Bytes × V)) → Above i m → Above i (erase k m)
  unfolding erase
  erase-Above i k [] a = tt
  erase-Above i k ((j, w) ∷ m) a = ground (arith, erase-Above i k m a.1)

  pub erase-IsSorted : (k : Bytes) (m : List (Bytes × V)) → IsSorted m → IsSorted (erase k m)
  unfolding erase
  erase-IsSorted k [] s = tt
  erase-IsSorted k ((j, w) ∷ m) s = ground (arith, erase-IsSorted k m s.1, erase-Above j k m s.0)

  contains-Above : (k : Bytes) (m : List (Bytes × V)) → Above k m → contains k m ≡ false
  unfolding contains
  contains-Above k [] a = refl
  contains-Above k ((j, w) ∷ m) a =
      ground (arith, bytes_eq_iff j k, bytes_less_irrefl k, contains-Above k m a.1)

  -- An erased key is gone, and no other key is touched.
  pub contains-erase :
      (k j : Bytes) (m : List (Bytes × V))
      → IsSorted m
      → contains j (erase k m) ≡ (if bytes_eq k j then false else contains j m)
  unfolding contains erase
  contains-erase k j [] s = ground arith
  contains-erase k j ((i, w) ∷ m) s = ground (
    arith,
    bytes_eq_iff k j,
    bytes_eq_iff i k,
    bytes_eq_iff i j,
    contains-Above i m s.0,
    contains-erase k j m s.1,
  )

  pub lookup-contains :
      (k : Bytes) (m : List (Bytes × V)) → contains k m ≡ false → lookup k m ≡ none
  unfolding contains lookup
  lookup-contains k [] h = refl
  lookup-contains k ((j, w) ∷ m) h = ground (arith, lookup-contains k m)

  pub contains-lookup :
      (k : Bytes) (m : List (Bytes × V)) (v : V) → lookup k m ≡ some v → contains k m ≡ true
  unfolding contains lookup
  contains-lookup k [] v h = ground arith
  contains-lookup k ((j, w) ∷ m) v h = ground (arith, contains-lookup k m v)

  -- Every key stands below `k`.
  abbrev Under : Bytes → List (Bytes × V) → Type 0
  Under k [] = Unit {0}
  Under k ((j, v) ∷ m) = (bytes_less j k ≡ true) × Under k m

  insert_last :
      (k : Bytes) (v : V) (m : List (Bytes × V)) → Under k m → insert k v m ≡ m ++ ((k, v) ∷ [])
  unfolding insert
  insert_last k v [] u = refl
  insert_last k v ((j, w) ∷ m) u =
      ground (
        arith,
        bytes_eq_iff j k,
        bytes_less_irrefl j,
        bytes_less_trans j k j,
        insert_last k v m u.1,
      )

  Above-middle :
      (j : Bytes) (s : List (Bytes × V)) (k : Bytes) (v : V) (m : List (Bytes × V))
      → Above j (s ++ ((k, v) ∷ m))
      → bytes_less j k ≡ true
  Above-middle j [] k v m a = a.0
  Above-middle j (x ∷ s) k v m a = Above-middle j s k v m a.1

  IsSorted-Under :
      (s : List (Bytes × V)) (k : Bytes) (v : V) (m : List (Bytes × V))
      → IsSorted (s ++ ((k, v) ∷ m))
      → Under k s
  IsSorted-Under [] k v m h = tt
  IsSorted-Under ((j, w) ∷ s) k v m h = (Above-middle j s k v m h.0, IsSorted-Under s k v m h.1)

  abbrev pub insert_all : List (Bytes × V) → List (Bytes × V) → List (Bytes × V)
  insert_all [] s = s
  insert_all ((k, v) ∷ m) s = insert_all m (insert k v s)

  insert_all-append : (m s : List (Bytes × V)) → IsSorted (s ++ m) → insert_all m s ≡ s ++ m
  insert_all-append [] s h = sym (append-nil s)
  insert_all-append ((k, v) ∷ m) s h =
      ap (insert_all m) (insert_last k v s (IsSorted-Under s k v m h))
      ∙ insert_all-append m (s ++ ((k, v) ∷ []))
          (subst IsSorted (sym (append_assoc s ((k, v) ∷ []) m)) h)
      ∙ append_assoc s ((k, v) ∷ []) m

  -- Entries that are inserted in the order of their keys make up the map they come from.
  pub insert_all_sorted : (m : List (Bytes × V)) → IsSorted m → insert_all m [] ≡ m
  insert_all_sorted m h = insert_all-append m [] h
