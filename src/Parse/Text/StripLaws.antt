-- ===== src/Parse/Text/StripLaws.antt =====
-- Laws of `strip`, `drop_spaces`, `remove_comment` and `read_word`.
use mathlib.Core.List.{reverse, reverse-append, reverse-cons, reverse-reverse}
use aphros_test.Base.{
  ℕ, Bool, true, false, not, [], ◌∷◌, ◌++◌, ◌≡◌, refl, sym, ap, ◌∙◌, inl, inr, arith, Bytes, ◌==◌,
  Bool-cases, AllBytes, append-nil, append_assoc,
}
use aphros_test.Parse.Text.{
  is_space, drop_spaces, drop_back, strip, remove_comment, take_word, read_word,
}

pub drop_spaces-append :
    (ws v : Bytes) → AllBytes is_space ws → drop_spaces (ws ++ v) ≡ drop_spaces v
unfolding drop_spaces
drop_spaces-append [] v h = refl
drop_spaces-append (c ∷ ws) v h = rw h.0 (drop_spaces-append ws v h.1)

pub drop_spaces_all : (ws : Bytes) → AllBytes is_space ws → drop_spaces ws ≡ []
unfolding drop_spaces
drop_spaces_all [] h = refl
drop_spaces_all (c ∷ ws) h = rw h.0 (drop_spaces_all ws h.1)

pub drop_spaces_stop : (c : ℕ) (s : Bytes) → is_space c ≡ false → drop_spaces (c ∷ s) ≡ c ∷ s
unfolding drop_spaces
drop_spaces_stop c s h = rw h

reverse-AllBytes :
    (p : ℕ → Bool) (xs ys : Bytes) → AllBytes p xs → AllBytes p ys → AllBytes p (reverse xs ++ ys)
reverse-AllBytes p [] ys h k = k
reverse-AllBytes p (x ∷ xs) ys h k =
    rw (reverse-cons x xs, append_assoc) (reverse-AllBytes p xs (x ∷ ys) h.1 (h.0, k))

drop_back-append : (u ws : Bytes) → AllBytes is_space ws → drop_back (u ++ ws) ≡ drop_back u
unfolding drop_back
drop_back-append u ws h = rw (reverse-append u ws) (
    ap reverse (
      drop_spaces-append (reverse ws) (reverse u)
        (rw append-nil at (reverse-AllBytes is_space ws [] h tt))))

pub strip-append_spaces : (v ws : Bytes) → AllBytes is_space ws → strip (v ++ ws) ≡ strip v
unfolding strip
strip-append_spaces [] ws h = rw (drop_spaces_all ws h)
strip-append_spaces (c ∷ v) ws h = elim (Bool-cases (is_space c)) [
  | inl e ↦ rw e (strip-append_spaces v ws h)
  | inr e ↦ rw e (drop_back-append (c ∷ v) ws h)
]

-- Spaces round a text do not change what `strip` leaves of it.
pub strip_spaces :
    (ws v ws' : Bytes)
    → AllBytes is_space ws
    → AllBytes is_space ws'
    → strip (ws ++ (v ++ ws')) ≡ strip v
unfolding strip
strip_spaces ws v ws' h h' = rw (drop_spaces-append ws (v ++ ws') h) (strip-append_spaces v ws' h')

pub strip-drop_spaces : (v : Bytes) → strip (drop_spaces v) ≡ strip v
unfolding strip
strip-drop_spaces [] = refl
strip-drop_spaces (c ∷ v) = elim (Bool-cases (is_space c)) [
  | inl e ↦ rw e (strip-drop_spaces v)
  | inr e ↦ rw e (rw e)
]

abbrev pub is_word_char : ℕ → Bool
is_word_char c = not (is_space c)

-- A word ends at the first space.
pub take_word-append :
    (w : Bytes) (c : ℕ) (s : Bytes)
    → AllBytes is_word_char w
    → is_space c ≡ true
    → take_word (w ++ (c ∷ s)) ≡ (w, c ∷ s)
unfolding take_word
take_word-append [] c s h e = rw e
take_word-append (x ∷ w) c s h e = ground (arith, h.0, take_word-append w c s h.1 e)

pub read_word_lem :
    (ws : Bytes) (x : ℕ) (w : Bytes) (c : ℕ) (s : Bytes)
    → AllBytes is_space ws
    → AllBytes is_word_char (x ∷ w)
    → is_space c ≡ true
    → read_word (ws ++ ((x ∷ w) ++ (c ∷ s))) ≡ (x ∷ w, c ∷ s)
unfolding read_word
read_word_lem ws x w c s h k e = rw (drop_spaces-append ws ((x ∷ w) ++ (c ∷ s)) h) (
    rw (drop_spaces_stop x (w ++ (c ∷ s)) (ground (arith, k.0))) (take_word-append (x ∷ w) c s k e))

-- A text with no `#` has no comment to remove; otherwise what stands before the first one is left.
pub remove_comment_none : (s : Bytes) → AllBytes (λ c. not (c == b'#')) s → remove_comment s ≡ s
unfolding remove_comment
remove_comment_none [] h = refl
remove_comment_none (c ∷ s) h = ground (arith, h.0, remove_comment_none s h.1)

pub remove_comment-append :
    (s t : Bytes) → AllBytes (λ c. not (c == b'#')) s → remove_comment (s ++ (b'#' ∷ t)) ≡ s
unfolding remove_comment
remove_comment-append [] t h = refl
remove_comment-append (c ∷ s) t h = ground (arith, h.0, remove_comment-append s t h.1)

-- A word with nothing behind it.
pub take_word_end : (w : Bytes) → AllBytes is_word_char w → take_word w ≡ (w, [])
unfolding take_word
take_word_end [] h = refl
take_word_end (x ∷ w) h = ground (arith, h.0, take_word_end w h.1)

drop_spaces-append_cons :
    (a b : Bytes) (x : ℕ) (y : Bytes) → drop_spaces a ≡ x ∷ y → drop_spaces (a ++ b) ≡ (x ∷ y) ++ b
unfolding drop_spaces
drop_spaces-append_cons [] b x y h = cc
drop_spaces-append_cons (c ∷ a) b x y h = ground (arith, drop_spaces-append_cons a b x y)

reverse_cons : (v : Bytes) (c : ℕ) → (x : ℕ) × (y : Bytes) × (reverse (c ∷ v) ≡ x ∷ y)
reverse_cons v c = go (reverse v) (reverse-cons c v)
  where
    go :
        (r : Bytes)
        → reverse (c ∷ v) ≡ r ++ (c ∷ [])
        → (x : ℕ) × (y : Bytes) × (reverse (c ∷ v) ≡ x ∷ y)
    go [] e = (c, [], e)
    go (z ∷ r) e = (z, r ++ (c ∷ []), e)

-- A text with no space at either end, and not empty.
abbrev pub IsTrimmed : Bytes → Type 0
IsTrimmed [] = ⊥
IsTrimmed (c ∷ v) = (is_space c ≡ false) × (drop_back (c ∷ v) ≡ c ∷ v)

-- What stands before a trimmed text is not reached from the back.
drop_back_trimmed :
    (p : Bytes) (c : ℕ) (v : Bytes)
    → drop_back (c ∷ v) ≡ c ∷ v
    → drop_back (p ++ (c ∷ v)) ≡ p ++ (c ∷ v)
unfolding drop_back
drop_back_trimmed p c v h =
    let (x, y, e) = reverse_cons v c in
    let kept : drop_spaces (reverse (c ∷ v)) ≡ x ∷ y =
      sym (reverse-reverse (drop_spaces (reverse (c ∷ v)))) ∙ ap reverse h ∙ e in
    rw (reverse-append p (c ∷ v)) (
      ap reverse (
        drop_spaces-append_cons (reverse (c ∷ v)) (reverse p) x y kept
        ∙ ap (λ (z : Bytes). z ++ reverse p) (sym e))
      ∙ ap reverse (sym (reverse-append p (c ∷ v)))
      ∙ reverse-reverse (p ++ (c ∷ v)))

-- `strip` keeps a text that begins with no space and ends in a trimmed part.
pub strip_trimmed :
    (x : ℕ) (p v : Bytes) → is_space x ≡ false → IsTrimmed v → strip ((x ∷ p) ++ v) ≡ (x ∷ p) ++ v
unfolding strip
strip_trimmed x p [] h t = absurd t
strip_trimmed x p (c ∷ v) h t = rw h (drop_back_trimmed (x ∷ p) c v t.1)

pub strip-IsTrimmed : (v : Bytes) → IsTrimmed v → strip v ≡ v
unfolding strip
strip-IsTrimmed [] t = absurd t
strip-IsTrimmed (c ∷ v) t = rw t.0 t.1

drop_spaces_word : (u : Bytes) → AllBytes is_word_char u → drop_spaces u ≡ u
unfolding drop_spaces
drop_spaces_word [] h = refl
drop_spaces_word (c ∷ u) h = drop_spaces_stop c u (ground (arith, h.0))

drop_back_word : (u : Bytes) → AllBytes is_word_char u → drop_back u ≡ u
unfolding drop_back
drop_back_word u h =
    ap reverse
      (drop_spaces_word (reverse u) (rw append-nil at (reverse-AllBytes is_word_char u [] h tt)))
    ∙ reverse-reverse u

-- A word has no space at either end.
pub word-IsTrimmed : (c : ℕ) (v : Bytes) → AllBytes is_word_char (c ∷ v) → IsTrimmed (c ∷ v)
word-IsTrimmed c v h = (ground (arith, h.0), drop_back_word (c ∷ v) h)
