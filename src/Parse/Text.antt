-- ===== src/Parse/Text.antt =====
-- Text helpers of parse/parser.cpp and parse/codeblocks.cpp: `Strip`, `RemoveComment`,
-- `IsNameChar`, and what `operator>>` does to a string stream.
pub mod StripLaws
use mathlib.Core.List.{reverse}
use aphros_test.Base.{
  ℕ, Bool, true, false, ◌&&◌, ◌||◌, List, [], ◌∷◌, ◌++◌, Bytes, ◌==◌, leb, if◌then◌else◌,
}

-- `std::isspace` in the "C" locale.
abbrev pub is_space : ℕ → Bool
is_space c = (c == b' ') || (leb 9 c && leb c 13)

-- `while (b < e && std::isspace(s[b])) ++b;`
unfoldable pub drop_spaces : Bytes → Bytes
drop_spaces [] = []
drop_spaces (c ∷ s) = let rest = drop_spaces s in if is_space c then rest else c ∷ s

-- `while (b < e && std::isspace(s[e - 1])) --e;`
unfoldable pub drop_back : Bytes → Bytes
drop_back s = reverse (drop_spaces (reverse s))

unfoldable pub strip : Bytes → Bytes
unfolding drop_spaces drop_back
strip s = drop_back (drop_spaces s)

-- `s.substr(0, s.find('#', 0))`
unfoldable pub remove_comment : Bytes → Bytes
remove_comment [] = []
remove_comment (c ∷ s) = let rest = remove_comment s in if c == b'#' then [] else c ∷ rest

abbrev pub is_name_char : ℕ → Bool
is_name_char c =
    (leb b'0' c && leb c b'9')
    || (leb b'a' c && leb c b'z')
    || (leb b'A' c && leb c b'Z')
    || (c == b'_')

-- The characters up to the first space, and what follows.
unfoldable pub take_word : Bytes → Bytes × Bytes
take_word [] = ([], [])
take_word (c ∷ s) =
    let rest = take_word s in if is_space c then ([], c ∷ s) else (c ∷ rest.0, rest.1)

-- `stream >> word` under `std::skipws`. At the end of the stream the word stays empty.
unfoldable pub read_word : Bytes → Bytes × Bytes
unfolding drop_spaces take_word
read_word s = take_word (drop_spaces s)

-- `std::getline(stream, line)`: the characters before the next newline.
unfoldable pub get_line : Bytes → Bytes
get_line [] = []
get_line (c ∷ s) = let rest = get_line s in if c == b'\n' then [] else c ∷ rest
