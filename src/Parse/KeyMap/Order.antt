-- ===== src/Parse/KeyMap/Order.antt =====
-- The order of keys is a strict total order.
use aphros_test.Base.{true, false, [], ◌∷◌, ◌≡◌, refl, arith, Bytes, bytes_eq, bytes_less}

pub bytes_less_irrefl : (a : Bytes) → bytes_less a a ≡ false
unfolding bytes_less
bytes_less_irrefl [] = refl
bytes_less_irrefl (x ∷ a) = ground (arith, bytes_less_irrefl a)

pub bytes_less_trans :
    (a b c : Bytes) → bytes_less a b ≡ true → bytes_less b c ≡ true → bytes_less a c ≡ true
unfolding bytes_less
bytes_less_trans [] [] c h k = ground arith
bytes_less_trans [] (y ∷ b) [] h k = ground arith
bytes_less_trans [] (y ∷ b) (z ∷ c) h k = refl
bytes_less_trans (x ∷ a) [] c h k = ground arith
bytes_less_trans (x ∷ a) (y ∷ b) [] h k = ground arith
bytes_less_trans (x ∷ a) (y ∷ b) (z ∷ c) h k = ground (arith, bytes_less_trans a b c)

-- Of two different keys one stands above the other.
pub bytes_less_total :
    (a b : Bytes) → bytes_eq a b ≡ false → bytes_less b a ≡ false → bytes_less a b ≡ true
unfolding bytes_less bytes_eq
bytes_less_total [] [] h k = ground arith
bytes_less_total [] (y ∷ b) h k = refl
bytes_less_total (x ∷ a) [] h k = ground arith
bytes_less_total (x ∷ a) (y ∷ b) h k = ground (arith, bytes_less_total a b)
