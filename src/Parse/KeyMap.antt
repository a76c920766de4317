-- ===== src/Parse/KeyMap.antt =====
-- `std::map<std::string, Value>`: the entries in the order of their keys.
pub mod Order
pub mod Laws
use aphros_test.Base.{
  Bool, true, false, List, [], ◌∷◌, Option, none, some, ◌≡◌, Bytes, bytes_eq, bytes_less,
  if◌then◌else◌,
}

module _ {ℓ} {V : Type ℓ} where
  -- `m_.find(k)`
  unfoldable pub lookup : Bytes → List (Bytes × V) → Option V
  lookup k [] = none
  lookup k ((j, v) ∷ m) = if bytes_eq j k then some v else lookup k m

  -- `m_[k] = v`
  unfoldable pub insert : Bytes → V → List (Bytes × V) → List (Bytes × V)
  insert k v [] = (k, v) ∷ []
  insert k v ((j, w) ∷ m) =
      let rest = insert k v m in
      if bytes_eq j k
      then (k, v) ∷ m
      else if bytes_less k j
      then (k, v) ∷ (j, w) ∷ m
      else (j, w) ∷ rest

  -- `m_.erase(m_.find(k))`, for a key that is there.
  unfoldable pub erase : Bytes → List (Bytes × V) → List (Bytes × V)
  erase k [] = []
  erase k ((j, w) ∷ m) = if bytes_eq j k then m else (j, w) ∷ erase k m

  -- `m_.count(k)`
  unfoldable pub contains : Bytes → List (Bytes × V) → Bool
  contains k [] = false
  contains k ((j, v) ∷ m) = if bytes_eq j k then true else contains k m

  -- Every key stands above `k`.
  abbrev pub Above : Bytes → List (Bytes × V) → Type 0
  Above k [] = Unit {0}
  Above k ((j, v) ∷ m) = (bytes_less k j ≡ true) × Above k m

  -- The keys ascend.
  abbrev pub IsSorted : List (Bytes × V) → Type 0
  IsSorted [] = Unit {0}
  IsSorted ((j, v) ∷ m) = Above j m × IsSorted m
