-- ===== src/Parse/Stream.antt =====
-- Reading lines from a stream: `ReadMultiline` of parse/parser.cpp. A line ends at the first
-- newline outside of quotes; the quotes are removed.
pub mod Lines
use aphros_test.Base.{
  ℕ, ◌+◌, Bool, true, false, List, [], ◌∷◌, ◌++◌, Option, none, some, Bytes, ◌==◌, if◌then◌else◌,
  no_matching_quote, Result, ok, err,
}
use aphros_test.Parse.Text.{strip}

-- What is unread, and whether the stream still converts to `true`.
pub record Stream : Type 0 where
  pub rest : Bytes
  pub good : Bool

pub data Mode : Type 0 where
  normal quote : Mode

-- The line and the number of newlines read.
pub record Line : Type 0 where
  pub content : Bytes
  pub lines : ℕ
  pub stream : Stream

-- One round of the loop before it calls `next`; `none` is the state `exit`.
unfoldable pub round : Mode → ℕ → Bytes → Option (Mode × Bytes)
round normal c res =
    if c == b'"'
    then some (quote, res)
    else if c == b'\n'
    then none
    else some (normal, res ++ (c ∷ []))
round quote c res = if c == b'"' then some (normal, res) else some (quote, res ++ (c ∷ []))

abbrev pub newlines : ℕ → ℕ
newlines c = if c == b'\n' then 1 else 0

-- The stream has ended. The last character stays in `c` and is looked at once more.
unfoldable pub end_of_stream : ℕ → ℕ → Mode × Bytes → Result Line
end_of_stream c lines (normal, res) = ok (record {
  content = strip res;
  lines = lines + newlines c;
  stream = record { rest = []; good = false };
})
end_of_stream c lines (quote, res) = err no_matching_quote

unfoldable pub end_of_line : Bytes → ℕ → Bytes → Result Line
end_of_line res lines rest =
    ok (record { content = strip res; lines = lines; stream = record { rest = rest; good = true } })

-- The loop, with the last character read in `c`.
unfoldable pub read_loop : Mode → ℕ → Bytes → ℕ → Bytes → Result Line
unfolding round end_of_stream end_of_line
read_loop m c res lines [] = elim (round m c res) [
  | none ↦ end_of_line res lines []
  | some p ↦ end_of_stream c lines p
]
read_loop m c res lines (d ∷ rest) = elim (round m c res) [
  | none ↦ end_of_line res lines (d ∷ rest)
  | some (m', res') ↦ read_loop m' d res' (lines + newlines d) rest
]

unfoldable pub read_multiline : Stream → Result Line
unfolding read_loop strip
read_multiline s =
    if s.good
    then read_loop normal b' ' [] 0 s.rest
    else ok (record { content = []; lines = 0; stream = s })
