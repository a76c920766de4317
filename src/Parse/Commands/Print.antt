-- ===== src/Parse/Commands/Print.antt =====
-- `Cmd` on a printed set command.
pub mod RoundTrip
use aphros_test.Base.{
  ℕ, zero, suc, ◌+◌, ◌≤◌, ◌<◌, ◌≡◌, refl, sym, ap, ◌∙◌, Bool, true, false, not, ◌&&◌, List, [], ◌∷◌,
  ◌++◌, Bytes, codes, bytes_eq, ◌==◌, if◌then◌else◌, length, AllBytes, AllBytes-append,
  AllBytes-weaken, Result, ok, err, arith, append-nil, append_assoc,
}
use aphros_test.Parse.Commands.{
  Environment, Variables, Effect, and_then, get_variable, cmd_set, dispatch, run_evaluated,
  run_expanded, command,
}
use aphros_test.Parse.Evaluate.Pieces as EvalPieces
use aphros_test.Parse.Evaluate.{eval_expressions}
use aphros_test.Parse.Expand.Pieces as ExpandPieces
use aphros_test.Parse.Expand.Pieces.{is_plain}
use aphros_test.Parse.Expand.{expand_variables}
use aphros_test.Parse.Text.StripLaws.{
  IsTrimmed, is_word_char, read_word_lem, remove_comment_none, strip-drop_spaces, strip-IsTrimmed,
  strip_spaces,
}
use aphros_test.Parse.Text.{is_name_char, is_space, strip, drop_spaces, remove_comment, read_word}
use aphros_test.Parse.Vars.{set_str}

-- Characters that no stage of the parser interprets.
abbrev pub is_literal : ℕ → Bool
is_literal c = is_plain c && not (c == b'#') && not (c == b'"')

-- The name of a variable or a type.
abbrev pub IsName : Bytes → Type 0
IsName [] = ⊥
IsName (c ∷ n) = AllBytes is_name_char (c ∷ n)

-- A value that is printed as it is read.
abbrev pub IsPrintable : Bytes → Type 0
IsPrintable v = AllBytes is_literal v × IsTrimmed v

-- The text of a set command.
abbrev pub set_line : Bytes → Bytes → Bytes → Bytes
set_line t k v = codes "set " ++ (t ++ (b' ' ∷ (k ++ (b' ' ∷ v))))

name_literal : (n : Bytes) → AllBytes is_name_char n → AllBytes is_literal n
name_literal n h = AllBytes-weaken is_name_char is_literal n (λ c e. ground arith) h

name_word : (n : Bytes) → AllBytes is_name_char n → AllBytes is_word_char n
name_word n h = AllBytes-weaken is_name_char is_word_char n (λ c e. ground arith) h

pub set_line_literal :
    (t k v : Bytes)
    → AllBytes is_name_char t
    → AllBytes is_name_char k
    → AllBytes is_literal v
    → AllBytes is_literal (set_line t k v)
set_line_literal t k v ht hk hv = (
  refl,
  (
    refl,
    (
      refl,
      (
        refl,
        AllBytes-append is_literal t (b' ' ∷ (k ++ (b' ' ∷ v))) (name_literal t ht)
            (refl, AllBytes-append is_literal k (b' ' ∷ v) (name_literal k hk) (refl, hv)),
      ),
    ),
  ),
)

expand_literal :
    (get : Bytes → Result Bytes) (s : Bytes) → AllBytes is_literal s → expand_variables get s ≡ ok s
unfolding ExpandPieces.render ExpandPieces.meaning
expand_literal get s h =
    ap (expand_variables get) (sym (append-nil s))
    ∙ ExpandPieces.expand_variables-render get (ExpandPieces.Piece.plain s ∷ [])
        (AllBytes-weaken is_literal is_plain s (λ c e. ground arith) h, tt)
    ∙ ap ok (append-nil s)

eval_literal :
    (eval : Bytes → Result Bytes) (s : Bytes)
    → AllBytes is_literal s
    → eval_expressions eval s ≡ ok s
unfolding EvalPieces.render EvalPieces.meaning
eval_literal eval s h =
    ap (eval_expressions eval) (sym (append-nil s))
    ∙ EvalPieces.eval_expressions-render eval (EvalPieces.Piece.plain s ∷ [])
        (AllBytes-weaken is_literal is_plain s (λ c e. ground arith) h, tt)
    ∙ ap ok (append-nil s)

comment_literal : (s : Bytes) → AllBytes is_literal s → remove_comment s ≡ s
comment_literal s h =
    remove_comment_none s
      (AllBytes-weaken is_literal (λ c. not (c == b'#')) s (λ c e. ground arith) h)

pub name_chars : (n : Bytes) → IsName n → AllBytes is_name_char n
name_chars [] h = absurd h
name_chars (c ∷ n) h = h

read_name : (t s : Bytes) → IsName t → read_word (b' ' ∷ (t ++ (b' ' ∷ s))) ≡ (t, b' ' ∷ s)
read_name [] s h = absurd h
read_name (c ∷ t) s h = read_word_lem (b' ' ∷ []) c t b' ' s (refl, tt) (name_word (c ∷ t) h) refl

strip_value : (v : Bytes) → IsTrimmed v → strip (drop_spaces (b' ' ∷ v)) ≡ v
strip_value v h =
    strip-drop_spaces (b' ' ∷ v)
    ∙ ap (λ (x : Bytes). strip (b' ' ∷ x)) (sym (append-nil v))
    ∙ strip_spaces (b' ' ∷ []) v [] (refl, tt) tt
    ∙ strip-IsTrimmed v h

module _ (env : Environment) where
  read_set :
      (t k v : Bytes)
      → read_word (set_line t k v) ≡ (codes "set", b' ' ∷ (t ++ (b' ' ∷ (k ++ (b' ' ∷ v)))))
  read_set t k v =
      read_word_lem [] b's' (codes "et") b' ' (t ++ (b' ' ∷ (k ++ (b' ' ∷ v)))) tt
        (refl, (refl, (refl, tt))) refl

  cmd_set_parts :
      (vars : Variables env) (s c t k v r r' r'' : Bytes)
      → read_word s ≡ (c, r)
      → read_word r ≡ (t, r')
      → read_word r' ≡ (k, r'')
      → strip (drop_spaces r'') ≡ v
      → cmd_set env vars s ≡ set_str env.number vars t k v
  unfolding cmd_set
  cmd_set_parts vars s c t k v r r' r'' e e' e'' q = rw (e, e', e'', q) refl

  cmd_set_line :
      (vars : Variables env) (t k v : Bytes)
      → IsName t
      → IsName k
      → IsTrimmed v
      → cmd_set env vars (set_line t k v) ≡ set_str env.number vars t k v
  cmd_set_line vars t k v ht hk hv =
      cmd_set_parts vars (set_line t k v) (codes "set") t k v
        (b' ' ∷ (t ++ (b' ' ∷ (k ++ (b' ' ∷ v))))) (b' ' ∷ (k ++ (b' ' ∷ v))) (b' ' ∷ v)
        (read_set t k v) (read_name t (k ++ (b' ' ∷ v)) ht) (read_name k v hk) (strip_value v hv)

  module _ (again : Variables env → Bytes → Bytes → Effect env) where
    dispatch_set :
        (vars : Variables env) (s r path : Bytes)
        → read_word s ≡ (codes "set", r)
        → dispatch env again vars s path ≡ cmd_set env vars s
    unfolding dispatch bytes_eq
    dispatch_set vars s r path e = rw e refl

    command_parts :
        (vars : Variables env) (s path : Bytes)
        → AllBytes is_literal s
        → command env again vars s path ≡ dispatch env again vars s path
    unfolding command
    command_parts vars s path h =
        ap
          (λ (x : Bytes).
            run_expanded env again vars path (expand_variables (get_variable env vars) x))
          (comment_literal s h)
        ∙ ap (run_expanded env again vars path) (expand_literal (get_variable env vars) s h)
        ∙ ap (run_evaluated env again vars path) (eval_literal env.eval s h)

    pub command_set :
        (vars : Variables env) (t k v path : Bytes)
        → IsName t
        → IsName k
        → IsPrintable v
        → command env again vars (set_line t k v) path ≡ set_str env.number vars t k v
    command_set vars t k v path ht hk hv =
        command_parts vars (set_line t k v) path
          (set_line_literal t k v (name_chars t ht) (name_chars k hk) hv.0)
        ∙ dispatch_set vars (set_line t k v) (b' ' ∷ (t ++ (b' ' ∷ (k ++ (b' ' ∷ v))))) path
            (read_set t k v)
        ∙ cmd_set_line vars t k v ht hk hv.1
