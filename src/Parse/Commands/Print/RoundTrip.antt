-- ===== src/Parse/Commands/Print/RoundTrip.antt =====
-- Variables that are printed by `PrintMap` are parsed again by `ParseStream`.
use aphros_test.Base.{
  append-nil, ℕ, zero, suc, ◌+◌, ◌≤◌, ◌<◌, ◌≡◌, refl, sym, ap, subst, ◌∙◌, ◌⊎◌, inl, inr, true,
  false, List, [], ◌∷◌, ◌++◌, Bytes, codes, bytes_eq, length, length-append, AllBytes,
  AllBytes-append, AllBytes-weaken, ok, arith, append_assoc, Bool-cases, none, some,
}
use aphros_test.Parse.Commands.Print.{
  is_literal, IsName, IsPrintable, set_line, name_chars, command_set,
}
use aphros_test.Parse.Commands.{
  Environment, Variables, Effect, and_then, command, cmd, parse_lines, run_line, parse_stream,
  has_newline, print_entry, print_map,
}
use aphros_test.Parse.KeyMap.Laws.{insert_all, insert_all_sorted}
use aphros_test.Parse.KeyMap.{insert, contains, IsSorted}
use aphros_test.Parse.Stream.Lines.{
  is_unquoted, is_quoted, read_multiline_line, read_multiline_quoted, read_multiline_last,
  count_newlines,
}
use aphros_test.Parse.Stream.{Stream, Line, read_multiline}
use aphros_test.Parse.Text.StripLaws.{
  IsTrimmed, word-IsTrimmed, is_word_char, strip_trimmed, strip-append_spaces,
}
use aphros_test.Parse.Text.{strip}
use aphros_test.Parse.Number.RoundTrip.{InRange, is_int_char, print_int_chars}
use aphros_test.Parse.Number.{ℤ, print_int}
use aphros_test.Parse.Vars.Laws.{set_str-set_kind, set_kind_string-insert, set_kind_int}
use aphros_test.Parse.Vars.{int, no_vars, find_kind, type_name, string, set_str}

has_newline_unquoted :
    (v : Bytes) → AllBytes is_literal v → has_newline v ≡ false → AllBytes is_unquoted v
unfolding has_newline
has_newline_unquoted [] h e = tt
has_newline_unquoted (c ∷ v) h e = (ground (arith, h.0), has_newline_unquoted v h.1 (ground arith))

name_unquoted : (n : Bytes) → IsName n → AllBytes is_unquoted n
name_unquoted n h = AllBytes-weaken _ is_unquoted n (λ c e. ground arith) (name_chars n h)

set_line_unquoted :
    (t k v : Bytes)
    → IsName t
    → IsName k
    → AllBytes is_unquoted v
    → AllBytes is_unquoted (set_line t k v)
set_line_unquoted t k v ht hk hv = (
  refl,
  (
    refl,
    (
      refl,
      (
        refl,
        AllBytes-append is_unquoted t (b' ' ∷ (k ++ (b' ' ∷ v))) (name_unquoted t ht)
            (refl, AllBytes-append is_unquoted k (b' ' ∷ v) (name_unquoted k hk) (refl, hv)),
      ),
    ),
  ),
)

set_line-append : (t k v w : Bytes) → set_line t k v ++ w ≡ set_line t k (v ++ w)
set_line-append t k v w =
    rw (append_assoc t (b' ' ∷ (k ++ (b' ' ∷ v))) w, append_assoc k (b' ' ∷ v) w)

set_line_split : (t k v : Bytes) → set_line t k v ≡ set_line t k [] ++ v
set_line_split t k v = sym (set_line-append t k [] v)

strip-set_line : (t k v : Bytes) → IsTrimmed v → strip (set_line t k v) ≡ set_line t k v
strip-set_line t k v h =
    ap strip (set_line_split t k v)
    ∙ strip_trimmed b's' (codes "et " ++ (t ++ (b' ' ∷ (k ++ (b' ' ∷ []))))) v refl h
    ∙ sym (set_line_split t k v)

print_entry_plain :
    (t k v : Bytes) → has_newline v ≡ false → print_entry t k v ≡ set_line t k (v ++ (b'\n' ∷ []))
unfolding print_entry
print_entry_plain t k v e = rw e

print_entry_quoted :
    (t k v : Bytes)
    → has_newline v ≡ true
    → print_entry t k v ≡ set_line t k (b'"' ∷ ((v ++ (b'\n' ∷ b'"' ∷ [])) ++ (b'\n' ∷ [])))
unfolding print_entry
print_entry_quoted t k v e = rw e

abbrev stream : Bytes → Stream
stream s = record { rest = s; good = true }

abbrev ReadsEntry : Bytes → Bytes → Bytes → Bytes → Type 0
ReadsEntry t k v rest =
    (n : ℕ) × (read_multiline (stream (print_entry t k v ++ rest))
      ≡ ok (record { content = set_line t k v; lines = n; stream = stream rest }))

read_plain :
    (t k v rest : Bytes)
    → IsName t
    → IsName k
    → IsPrintable v
    → has_newline v ≡ false
    → ReadsEntry t k v rest
read_plain t k v rest ht hk hv e =
    let text : print_entry t k v ++ rest ≡ set_line t k v ++ (b'\n' ∷ rest) =
      ap (λ (x : Bytes). x ++ rest)
        (print_entry_plain t k v e ∙ sym (set_line-append t k v (b'\n' ∷ [])))
      ∙ append_assoc (set_line t k v) (b'\n' ∷ []) rest in
    (
      1,
      rw text (
          read_multiline_line (set_line t k v) rest
            (set_line_unquoted t k v ht hk (has_newline_unquoted v hv.0 e))
          ∙ rw (strip-set_line t k v hv.1)),
    )

read_quoted :
    (t k v rest : Bytes)
    → IsName t
    → IsName k
    → IsPrintable v
    → has_newline v ≡ true
    → ReadsEntry t k v rest
read_quoted t k [] rest ht hk hv e = absurd hv.1
read_quoted t k (c ∷ v) rest ht hk hv e =
    let text : print_entry t k (c ∷ v) ++ rest
        ≡ set_line t k [] ++ (b'"' ∷ c ∷ ((v ++ (b'\n' ∷ [])) ++ (b'"' ∷ b'\n' ∷ rest))) =
      rw (print_entry_quoted t k (c ∷ v) e) (simp append_assoc) in
    let quoted : AllBytes is_quoted (c ∷ (v ++ (b'\n' ∷ []))) =
      AllBytes-append is_quoted (c ∷ v) (b'\n' ∷ [])
        (AllBytes-weaken is_literal is_quoted (c ∷ v) (λ x p. ground arith) hv.0) (refl, tt) in
    let content : strip (set_line t k [] ++ (c ∷ (v ++ (b'\n' ∷ [])))) ≡ set_line t k (c ∷ v) =
      ap strip (sym (append_assoc (set_line t k []) (c ∷ v) (b'\n' ∷ [])))
      ∙ strip-append_spaces (set_line t k [] ++ (c ∷ v)) (b'\n' ∷ []) (refl, tt)
      ∙ ap strip (sym (set_line_split t k (c ∷ v)))
      ∙ strip-set_line t k (c ∷ v) hv.1 in
    (
      count_newlines (c ∷ (v ++ (b'\n' ∷ []))) + 1,
      rw text (
          read_multiline_quoted (set_line t k []) (c ∷ (v ++ (b'\n' ∷ []))) [] rest
            (set_line_unquoted t k [] ht hk tt) quoted tt
          ∙ rw (append-nil (set_line t k [] ++ (c ∷ (v ++ (b'\n' ∷ [])))), content)),
    )

read_entry : (t k v rest : Bytes) → IsName t → IsName k → IsPrintable v → ReadsEntry t k v rest
read_entry t k v rest ht hk hv = elim (Bool-cases (has_newline v)) [
  | inl e ↦ read_quoted t k v rest ht hk hv e
  | inr e ↦ read_plain t k v rest ht hk hv e
]

module _ (env : Environment) (again : Variables env → Bytes → Bytes → Effect env) where
  parse_lines_step :
      (fuel : ℕ) (vars : Variables env) (u path : Bytes)
      → parse_lines env again (suc fuel) vars (stream u) path
        ≡ run_line env again vars path
            (λ v t. parse_lines env again fuel v t path)
            (read_multiline (stream u))
  unfolding parse_lines
  parse_lines_step fuel vars u path = refl

  -- A line whose command succeeds is followed by the next lines.
  run_line_ok :
      (fuel : ℕ) (vars next : Variables env) (u : Bytes) (l : Line) (path : Bytes)
      → read_multiline (stream u) ≡ ok l
      → again vars l.content path ≡ (next, ok tt)
      → parse_lines env again (suc fuel) vars (stream u) path
        ≡ parse_lines env again fuel next l.stream path
  unfolding run_line
  run_line_ok fuel vars next u l path r e =
      parse_lines_step fuel vars u path
      ∙ ap (run_line env again vars path (λ v t. parse_lines env again fuel v t path)) r
      ∙ ap (λ (x : Effect env). and_then x (λ v. parse_lines env again fuel v l.stream path)) e

  parse_lines_end :
      (fuel : ℕ) (vars : Variables env) (path : Bytes)
      → parse_lines env again (suc fuel) vars (record { rest = []; good = false }) path
        ≡ (vars, ok tt)
  unfolding parse_lines
  parse_lines_end fuel vars path = refl

module _ (env : Environment) (depth : ℕ) where
  cmd-command :
      (vars : Variables env) (s path : Bytes)
      → cmd env (suc depth) vars s path ≡ command env (cmd env depth) vars s path
  unfolding cmd
  cmd-command vars s path = refl

  command_empty :
      (vars : Variables env) (path : Bytes)
      → command env (cmd env depth) vars [] path ≡ (vars, ok tt)
  unfolding command bytes_eq
  command_empty vars path = refl

-- Every key is a name, and every value satisfies a predicate.
abbrev pub AllEntries : {V : Type 0} → (V → Type 0) → List (Bytes × V) → Type 0
AllEntries P [] = Unit {0}
AllEntries P ((k, v) ∷ m) = IsName k × P v × AllEntries P m

-- A map within the state: `build` puts the entries into their map, and a set command of a printed
-- value adds an entry.
module _ (env : Environment) {V : Type 0} (to_str : V → Bytes) (type : Bytes)
    (build : List (Bytes × V) → Variables env) (IsValue : V → Type 0) (is_name : IsName type)
    (is_printable : (v : V) → IsValue v → IsPrintable (to_str v))
    (stores : (m : List (Bytes × V)) (k : Bytes) (v : V)
      → IsValue v
      → set_str env.number (build m) type k (to_str v) ≡ (build (insert k v m), ok tt)) where
  run_entry :
      (depth fuel : ℕ) (s : List (Bytes × V)) (k : Bytes) (v : V) (rest path : Bytes)
      → IsName k
      → IsValue v
      → parse_lines env
          (cmd env (suc depth))
          (suc fuel)
          (build s)
          (stream (print_entry type k (to_str v) ++ rest))
          path
        ≡ parse_lines env (cmd env (suc depth)) fuel (build (insert k v s)) (stream rest) path
  run_entry depth fuel s k v rest path hk hv =
      let (n, e) = read_entry type k (to_str v) rest is_name hk (is_printable v hv) in
      run_line_ok env (cmd env (suc depth)) fuel (build s) (build (insert k v s))
        (print_entry type k (to_str v) ++ rest)
        (record { content = set_line type k (to_str v); lines = n; stream = stream rest }) path e
        (cmd-command env depth (build s) (set_line type k (to_str v)) path
          ∙ command_set env (cmd env depth) (build s) type k (to_str v) path is_name hk
              (is_printable v hv)
          ∙ stores s k v hv)

  run_end :
      (depth fuel : ℕ) (vars : Variables env) (path : Bytes)
      → parse_lines env (cmd env (suc depth)) (suc (suc fuel)) vars (stream []) path ≡ (vars, ok tt)
  unfolding strip
  run_end depth fuel vars path =
      run_line_ok env (cmd env (suc depth)) (suc fuel) vars vars []
        (record { content = []; lines = 0; stream = record { rest = []; good = false } }) path
        (read_multiline_last [] tt)
        (cmd-command env depth vars [] path ∙ command_empty env depth vars path)
      ∙ parse_lines_end env (cmd env (suc depth)) fuel vars path

  run_entries :
      (depth fuel : ℕ) (s m : List (Bytes × V)) (path : Bytes)
      → AllEntries IsValue m
      → length m + 2 ≤ fuel
      → parse_lines env (cmd env (suc depth)) fuel (build s) (stream (print_map to_str type m)) path
        ≡ (build (insert_all m s), ok tt)
  unfolding print_map
  run_entries depth zero s m path h f = absurd (omega arith)
  run_entries depth (suc zero) s m path h f = absurd (omega arith)
  run_entries depth (suc (suc fuel)) s [] path h f = run_end depth fuel (build s) path
  run_entries depth (suc (suc fuel)) s ((k, v) ∷ m) path h f =
      run_entry depth (suc fuel) s k v (print_map to_str type m) path h.0 h.1
      ∙ run_entries depth (suc fuel) (insert k v s) m path h.2 (omega arith)

  length-print_entry : (k val : Bytes) → 0 < length (print_entry type k val)
  unfolding print_entry
  length-print_entry k val = omega arith

  length-print_map : (m : List (Bytes × V)) → length m ≤ length (print_map to_str type m)
  unfolding print_map
  length-print_map [] = omega arith
  length-print_map ((k, v) ∷ m) = omega (
    arith,
    length-append (print_entry type k (to_str v)) (print_map to_str type m),
    length-print_entry k (to_str v),
    length-print_map m,
  )

  pub parse-print_entries :
      (depth : ℕ) (m : List (Bytes × V))
      → AllEntries IsValue m
      → IsSorted m
      → parse_stream env (suc depth) (build []) (print_map to_str type m) ≡ (build m, ok tt)
  unfolding parse_stream
  parse-print_entries depth m h sorted =
      run_entries depth (suc (suc (length (print_map to_str type m)))) [] m [] h
        (omega (arith, length-print_map m))
      ∙ rw (insert_all_sorted m sorted)

-- The variables of one type, and no others.
abbrev pub only_strings : (env : Environment) → List (Bytes × Bytes) → Variables env
only_strings env m = record no_vars { strings = m }

abbrev pub only_ints : (env : Environment) → List (Bytes × ℤ) → Variables env
only_ints env m = record no_vars { ints = m }

free_string :
    (env : Environment) (m : List (Bytes × Bytes)) (k : Bytes)
    → (find_kind (only_strings env m) k ≡ none) ⊎ (find_kind (only_strings env m) k ≡ some string)
unfolding find_kind contains
free_string env m k = elim (Bool-cases (contains k m)) [ inl e ↦ inr (rw e) | inr e ↦ inl (rw e) ]

free_int :
    (env : Environment) (m : List (Bytes × ℤ)) (k : Bytes)
    → (find_kind (only_ints env m) k ≡ none) ⊎ (find_kind (only_ints env m) k ≡ some int)
unfolding find_kind contains
free_int env m k = elim (Bool-cases (contains k m)) [ inl e ↦ inr (rw e) | inr e ↦ inl (rw e) ]

store_string :
    (env : Environment) (m : List (Bytes × Bytes)) (k v : Bytes)
    → set_str env.number (only_strings env m) (type_name string) k v
      ≡ (only_strings env (insert k v m), ok tt)
store_string env m k v =
    set_str-set_kind env.number (only_strings env m) string k v (free_string env m k)
    ∙ set_kind_string-insert env.number (only_strings env m) k v

store_int :
    (env : Environment) (m : List (Bytes × ℤ)) (k : Bytes) (z : ℤ)
    → InRange z
    → set_str env.number (only_ints env m) (type_name int) k (print_int z)
      ≡ (only_ints env (insert k z m), ok tt)
store_int env m k z h =
    set_str-set_kind env.number (only_ints env m) int k (print_int z) (free_int env m k)
    ∙ set_kind_int env.number (only_ints env m) k z h

print_int-IsPrintable : (z : ℤ) → IsPrintable (print_int z)
print_int-IsPrintable z =
    let (c, v, p, h) = print_int_chars z in
    subst IsPrintable (sym p) (
      AllBytes-weaken is_int_char is_literal (c ∷ v) (λ x e. ground arith) h,
      word-IsTrimmed c v (AllBytes-weaken is_int_char is_word_char (c ∷ v) (λ x e. ground arith) h),
    )

-- `PrintMap` of string variables, parsed by `ParseStream` into an empty state, gives the same
-- variables, if their keys are names in ascending order, and their values are not empty, have no
-- space at either end and none of the characters # $ \ " and 0; they may hold newlines.
pub parse-print_strings :
    (env : Environment) (depth : ℕ) (m : List (Bytes × Bytes))
    → AllEntries IsPrintable m
    → IsSorted m
    → parse_stream env (suc depth) no_vars (print_map (λ v. v) (type_name string) m)
      ≡ (only_strings env m, ok tt)
parse-print_strings env =
    parse-print_entries env (λ (v : Bytes). v) (type_name string) (only_strings env) IsPrintable
      (refl, (refl, (refl, (refl, (refl, (refl, tt)))))) (λ v p. p)
      (λ s k v p. store_string env s k v)

-- `PrintMap` of `int` variables, parsed by `ParseStream` into an empty state, gives the same
-- variables, if their keys are names in ascending order and their values lie within 32 bits.
pub parse-print_ints :
    (env : Environment) (depth : ℕ) (m : List (Bytes × ℤ))
    → AllEntries InRange m
    → IsSorted m
    → parse_stream env (suc depth) no_vars (print_map print_int (type_name int) m)
      ≡ (only_ints env m, ok tt)
parse-print_ints env =
    parse-print_entries env print_int (type_name int) (only_ints env) InRange
      (refl, (refl, (refl, tt))) (λ z p. print_int-IsPrintable z) (store_int env)
