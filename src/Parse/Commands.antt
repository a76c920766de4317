-- ===== src/Parse/Commands.antt =====
-- `Parser` of parse/parser.cpp: the commands set, setnext, del, include and eval, and files of
-- commands. A failed command leaves what it has done to the variables before it threw.
pub mod Print
use aphros_test.Base.{
  ℕ, zero, suc, ◌+◌, Bool, true, false, not, ◌&&◌, List, [], ◌∷◌, ◌++◌, Option, none, some, Bytes,
  codes, bytes_eq, ◌==◌, if◌then◌else◌, length, Error, undefined_variable, unknown_command,
  empty_path, not_a_directory, cannot_open, out_of_fuel, Result, ok, err,
}
use aphros_test.Parse.Evaluate.{eval_expressions}
use aphros_test.Parse.Expand.{expand_variables}
use aphros_test.Parse.KeyMap.{lookup, insert, contains}
use aphros_test.Parse.Number.{ℤ, pos, negsuc, StreamNumber, print_int}
use aphros_test.Parse.Stream.{Stream, Line, read_multiline}
use aphros_test.Parse.Text.{strip, remove_comment, read_word, drop_spaces, get_line}
use aphros_test.Parse.Vars.{
  Vars, string, int, double, vect, type_name, get_type_name, get_str, set_str, del, print_vect,
}

-- What the parser uses and does not implement: numbers on streams, the evaluation of expressions
-- with its print, files, `dirname`, and the value of a `char` that is never written.
pub record Environment : Type 1 where
  pub number : StreamNumber
  pub eval : Bytes → Result Bytes
  pub read_file : Bytes → Option Bytes
  pub is_dir : Bytes → Bool
  pub dirname : Bytes → Bytes
  pub unwritten : ℕ

-- `SystemJoin` of util/system_unix.inc.
unfoldable pub ends_with_slash : Bytes → Bool
ends_with_slash [] = false
ends_with_slash (c ∷ []) = c == b'/'
ends_with_slash (c ∷ d ∷ s) = ends_with_slash (d ∷ s)

unfoldable pub join : Bytes → Bytes → Bytes
unfolding ends_with_slash
join [] b = b
join (x ∷ a) [] = x ∷ a
join (x ∷ a) (y ∷ b) =
    if y == b'/'
    then y ∷ b
    else if ends_with_slash (x ∷ a)
    then (x ∷ a) ++ (y ∷ b)
    else (x ∷ a) ++ (b'/' ∷ y ∷ b)

-- A successful state and what follows; a failed one ends the command.
abbrev pub and_then :
    {V : Type 0} → V × Result (Unit {0}) → (V → V × Result (Unit {0})) → V × Result (Unit {0})
and_then (vars, ok _) f = f vars
and_then (vars, err e) f = (vars, err e)

-- `++id` on an `int`.
unfoldable pub increment : ℤ → ℤ
increment (pos n) = pos (suc n)
increment (negsuc zero) = pos 0
increment (negsuc (suc n)) = negsuc n

module _ (env : Environment) where
  abbrev pub Variables : Type 0
  Variables = Vars env.number.Value

  abbrev pub Effect : Type 0
  Effect = Variables × Result (Unit {0})

  -- `Parser::Imp::GetStr`
  unfoldable pub get_variable : Variables → Bytes → Result Bytes
  unfolding get_type_name get_str
  get_variable vars key =
      let type = get_type_name vars key in
      if bytes_eq type [] then err undefined_variable else get_str env.number vars type key

  unfoldable pub cmd_set : Variables → Bytes → Effect
  unfolding read_word drop_spaces strip set_str
  cmd_set vars s =
      let cmd = read_word s in
      let type = read_word cmd.1 in
      let key = read_word type.1 in set_str env.number vars type.0 key.0 (strip (drop_spaces key.1))

  -- `b >> c; std::getline(b, val); val = c + val;`
  unfoldable pub rest_of_line : Bytes → Bytes
  unfolding get_line
  rest_of_line [] = env.unwritten ∷ []
  rest_of_line (c ∷ s) = c ∷ get_line s

  -- `++id`, where `id` refers to the entry of the key in `var_.Int`.
  unfoldable pub increment_id : Bytes → Variables → Effect
  unfolding lookup insert increment
  increment_id key vars = elim (lookup key vars.ints) [
    | none ↦ (vars, ok tt)
    | some id ↦ (record vars { ints = insert key (increment id) vars.ints }, ok tt)
  ]

  unfoldable pub set_next : Variables → Bytes → Bytes → Bytes → Effect
  unfolding lookup print_int set_str increment_id
  set_next vars type key val = elim (lookup key vars.ints) [
    | none ↦ (vars, ok tt)
    | some id ↦ and_then (set_str env.number vars type (key ++ print_int id) val) (increment_id key)
  ]

  unfoldable pub cmd_setnext : Variables → Bytes → Effect
  unfolding read_word drop_spaces rest_of_line contains insert set_next
  cmd_setnext vars s =
      let cmd = read_word s in
      let type = read_word cmd.1 in
      let key = read_word type.1 in
      let val = rest_of_line (drop_spaces key.1) in
      let vars' =
        if contains key.0 vars.ints
        then vars
        else record vars { ints = insert key.0 (pos 0) vars.ints } in
      set_next vars' type.0 key.0 val

  unfoldable pub cmd_del : Variables → Bytes → Effect
  unfolding read_word del
  cmd_del vars s =
      let cmd = read_word s in
      let key = read_word cmd.1 in
      let r = del vars key.0 in (r.0, if r.1 then ok tt else err undefined_variable)

  -- The rest of the parser calls `Cmd` again, with the text of the command and the current path.
  module _ (again : Variables → Bytes → Bytes → Effect) where
    -- The command of a line, and then the next lines.
    unfoldable pub run_line :
        Variables → Bytes → (Variables → Stream → Effect) → Result Line → Effect
    run_line vars path next (err e) = (vars, err e)
    run_line vars path next (ok l) = and_then (again vars l.content path) (λ v. next v l.stream)

    -- The loop of `ParseFile` and `ParseStream` over the lines of a stream.
    unfoldable pub parse_lines : ℕ → Variables → Stream → Bytes → Effect
    unfolding read_multiline run_line
    parse_lines zero vars s path = (vars, err out_of_fuel)
    parse_lines (suc fuel) vars s path = elim s.good [
      | false ↦ (vars, ok tt)
      | true ↦ run_line vars path (λ v t. parse_lines fuel v t path) (read_multiline s)
    ]

    unfoldable pub parse_content : Variables → Bytes → Bytes → Effect
    unfolding parse_lines
    parse_content vars text path =
        parse_lines (suc (suc (length text))) vars (record { rest = text; good = true }) path

    abbrev opened : Variables → Option Bytes → Bytes → Effect
    opened vars none path = (vars, err cannot_open)
    opened vars (some text) path = parse_content vars text path

    abbrev is_absolute : Bytes → Bool
    is_absolute [] = false
    is_absolute (c ∷ s) = c == b'/'

    abbrev or_else : Option Bytes → Option Bytes → Option Bytes
    or_else none b = b
    or_else (some a) b = some a

    -- `ParseFile` within a directory: the file is looked for in the working directory first, and
    -- the path of the commands is the one in the directory in either case.
    unfoldable pub parse_in_dir : Variables → Bytes → Bytes → Effect
    unfolding parse_content join
    parse_in_dir vars path dir =
        if env.is_dir dir
        then opened vars
            (or_else (env.read_file path)
              (if is_absolute path then none else env.read_file (join dir path)))
            (join dir path)
        else (vars, err not_a_directory)

    unfoldable pub parse_file_with : Variables → Bytes → Bytes → Effect
    unfolding parse_in_dir
    parse_file_with vars [] dir = (vars, err empty_path)
    parse_file_with vars (c ∷ path) [] = opened vars (env.read_file (c ∷ path)) (c ∷ path)
    parse_file_with vars (c ∷ path) (d ∷ dir) = parse_in_dir vars (c ∷ path) (d ∷ dir)

    unfoldable pub cmd_include : Variables → Bytes → Bytes → Effect
    unfolding read_word parse_file_with
    cmd_include vars s curpath =
        let cmd = read_word s in
        let filename = read_word cmd.1 in
        parse_file_with vars filename.0 (if bytes_eq curpath [] then [] else env.dirname curpath)

    -- The choice of the command in `Cmd`.
    unfoldable pub dispatch : Variables → Bytes → Bytes → Effect
    unfolding read_word cmd_set cmd_setnext cmd_del cmd_include
    dispatch vars s curpath =
        let cmd = read_word s in
        if bytes_eq cmd.0 (codes "set")
        then cmd_set vars s
        else if bytes_eq cmd.0 (codes "setnext")
        then cmd_setnext vars s
        else if bytes_eq cmd.0 (codes "del")
        then cmd_del vars s
        else if bytes_eq cmd.0 (codes "include")
        then cmd_include vars s curpath
        else if bytes_eq cmd.0 (codes "eval")
        then again vars cmd.1 curpath
        else if bytes_eq cmd.0 []
        then (vars, ok tt)
        else (vars, err unknown_command)

    unfoldable pub run_evaluated : Variables → Bytes → Result Bytes → Effect
    unfolding dispatch
    run_evaluated vars curpath (ok s) = dispatch vars s curpath
    run_evaluated vars curpath (err e) = (vars, err e)

    unfoldable pub run_expanded : Variables → Bytes → Result Bytes → Effect
    unfolding eval_expressions run_evaluated
    run_expanded vars curpath (ok s) = run_evaluated vars curpath (eval_expressions env.eval s)
    run_expanded vars curpath (err e) = (vars, err e)

    -- `Cmd`: the text is cut at the comment, and variables and expressions are replaced in it.
    unfoldable pub command : Variables → Bytes → Bytes → Effect
    unfolding remove_comment expand_variables get_variable run_expanded
    command vars s curpath =
        run_expanded vars curpath (expand_variables (get_variable vars) (remove_comment s))

  -- `Cmd`, with fuel for nested eval and include commands.
  unfoldable pub cmd : ℕ → Variables → Bytes → Bytes → Effect
  unfolding command
  cmd zero vars s curpath = (vars, err out_of_fuel)
  cmd (suc depth) vars s curpath = command (cmd depth) vars s curpath

  -- `Parser::ParseStream`
  unfoldable pub parse_stream : ℕ → Variables → Bytes → Effect
  unfolding parse_content cmd
  parse_stream depth vars text = parse_content (cmd depth) vars text []

  -- `Parser::ParseFile`
  unfoldable pub parse_file : ℕ → Variables → Bytes → Bytes → Effect
  unfolding parse_file_with cmd
  parse_file depth vars path dir = parse_file_with (cmd depth) vars path dir

-- `Parser::PrintMap`: one set command for each entry, quoted if its value holds a newline.
unfoldable pub has_newline : Bytes → Bool
has_newline [] = false
has_newline (c ∷ s) = if c == b'\n' then true else has_newline s

unfoldable pub print_value : Bytes → Bytes
unfolding has_newline
print_value val = if has_newline val then b'"' ∷ (val ++ (b'\n' ∷ b'"' ∷ [])) else val

unfoldable pub print_entry : Bytes → Bytes → Bytes → Bytes
unfolding print_value
print_entry type key val =
    codes "set " ++ (type ++ (b' ' ∷ (key ++ (b' ' ∷ (print_value val ++ (b'\n' ∷ []))))))

unfoldable pub print_map : {V : Type 0} → (V → Bytes) → Bytes → List (Bytes × V) → Bytes
unfolding print_entry
print_map to_str type [] = []
print_map to_str type ((k, v) ∷ m) = print_entry type k (to_str v) ++ print_map to_str type m

-- `Parser::PrintVars`
unfoldable pub print_vars : (D : StreamNumber) → Vars D.Value → Bytes
unfolding print_map print_vect
print_vars D vars =
    print_map (λ v. v) (type_name string) vars.strings
    ++ (print_map print_int (type_name int) vars.ints
        ++ (print_map D.print (type_name double) vars.doubles
            ++ print_map (print_vect D) (type_name vect) vars.vects))
