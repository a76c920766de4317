-- ===== src/Parse/CodeBlocks.antt =====
-- parse/codeblocks.cpp: blocks `name { content }` from a stream.
pub mod Blocks
pub mod RoundTrip
use aphros_test.Base.{
  ℕ, zero, suc, ◌+◌, ◌-◌, Bool, true, false, not, ◌&&◌, ◌||◌, List, [], ◌∷◌, ◌++◌, Option, none,
  some, Bytes, ◌==◌, if◌then◌else◌, length, Error, brace_in_name, unexpected_end, out_of_fuel,
  Result, ok, err,
}
use aphros_test.Parse.Stream.{Stream}
use aphros_test.Parse.Text.{is_space, strip}

pub record CodeBlock : Type 0 where
  pub name : Bytes
  pub content : Bytes

-- The states that go on reading; `S::exit` is `Round.exit`.
pub data Mode : Type 0 where
  begin name content : Mode

pub record State : Type 0 where
  pub mode : Mode
  pub block : CodeBlock
  pub braces : ℕ

-- What a round does before it calls `next`: go on, leave the loop, or stop with an error.
pub data Round : Type 0 where
  continue : State → Round
  exit : State → Round
  fail : Error → Round

unfoldable pub name_round : State → ℕ → Round
name_round s c =
    if c == b'{'
    then continue (record s { mode = content })
    else if c == b'}'
    then fail brace_in_name
    else continue (record s {
      mode = name;
      block = record { name = s.block.name ++ (c ∷ []); content = s.block.content };
    })

unfoldable pub content_round : State → ℕ → Round
content_round s c =
    if (c == b'}') && (s.braces == 0)
    then exit s
    else continue (record s {
      block = record { name = s.block.name; content = s.block.content ++ (c ∷ []) };
      braces = if c == b'{' then s.braces + 1 else if c == b'}' then s.braces - 1 else s.braces;
    })

-- The first character that is no space takes the machine from `begin` to `name` without `next`,
-- so the round of `name` follows at once.
unfoldable pub round : Mode → State → ℕ → Round
unfolding name_round content_round
round begin s c = if is_space c then continue s else name_round s c
round name s c = name_round s c
round content s c = content_round s c

-- A block that was found with its stream, or none.
abbrev pub Found : Type 0
Found = Option CodeBlock × Stream

abbrev stripped : CodeBlock → CodeBlock
stripped b = record { name = strip b.name; content = strip b.content }

abbrev is_empty : Bytes → Bool
is_empty [] = true
is_empty (c ∷ s) = false

-- The stream has ended within a round that goes on.
unfoldable pub end_of_stream : State → Result Found
end_of_stream s =
    if is_empty s.block.name && is_empty s.block.content
    then ok (none, record { rest = []; good = false })
    else err unexpected_end

-- The last `next` behind a block.
unfoldable pub leave : CodeBlock → Bytes → Found
unfolding strip
leave b [] = (some (stripped b), record { rest = []; good = false })
leave b (d ∷ rest) = (some (stripped b), record { rest = rest; good = true })

-- The loop, with the last character read in `c`.
unfoldable pub read_block : State → ℕ → Bytes → Result Found
unfolding round end_of_stream leave
read_block s c [] = elim (round s.mode s c) [
  | continue t ↦ end_of_stream t
  | exit t ↦ ok (leave t.block [])
  | fail e ↦ err e
]
read_block s c (d ∷ rest) = elim (round s.mode s c) [
  | continue t ↦ read_block t d rest
  | exit t ↦ ok (leave t.block (d ∷ rest))
  | fail e ↦ err e
]

abbrev pub initial : State
initial = record { mode = begin; block = record { name = []; content = [] }; braces = 0 }

unfoldable pub parse_code_block : Stream → Result Found
unfolding read_block
parse_code_block s = if s.good then read_block initial b' ' s.rest else ok (none, s)

-- The loop of `ParseCodeBlocks`; `blocks` are those found so far.
unfoldable pub collect : ℕ → List CodeBlock → Stream → Result (List CodeBlock)
unfolding parse_code_block
collect zero blocks s = err out_of_fuel
collect (suc fuel) blocks s = elim (parse_code_block s) [
  | err e ↦ err e
  | ok (found, rest) ↦ elim found [
    | none ↦ ok blocks
    | some b ↦ collect fuel (blocks ++ (b ∷ [])) rest
  ]
]

unfoldable pub parse_code_blocks : Bytes → Result (List CodeBlock)
unfolding collect
parse_code_blocks text = collect (suc (suc (length text))) [] (record { rest = text; good = true })
