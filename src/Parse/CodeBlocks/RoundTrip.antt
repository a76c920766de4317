-- ===== src/Parse/CodeBlocks/RoundTrip.antt =====
-- Blocks that are written one to a line are parsed again.
use aphros_test.Base.{
  ℕ, zero, suc, ◌≤◌, ◌<◌, ◌≡◌, refl, sym, ap, ◌∙◌, true, false, List, [], ◌∷◌, ◌++◌, none, some,
  Bytes, length, length-append, AllBytes, ok, arith, append-nil, append_assoc,
}
use aphros_test.Parse.CodeBlocks.Blocks.{is_block_name_char, IsBraced, parse_code_block_found}
use aphros_test.Parse.CodeBlocks.{CodeBlock, parse_code_block, collect, parse_code_blocks}
use aphros_test.Parse.Stream.{Stream}
use aphros_test.Parse.Text.{strip}
use aphros_test.Parse.Text.StripLaws.{IsTrimmed, strip-IsTrimmed}

-- A block that the format can express.
abbrev pub IsContent : Bytes → Type 0
IsContent [] = Unit {0}
IsContent (c ∷ t) = IsTrimmed (c ∷ t) × IsBraced 0 (c ∷ t)

abbrev pub IsBlock : CodeBlock → Type 0
IsBlock b = IsTrimmed b.name × AllBytes is_block_name_char b.name × IsContent b.content

abbrev pub AllBlocks : List CodeBlock → Type 0
AllBlocks [] = Unit {0}
AllBlocks (b ∷ bs) = IsBlock b × AllBlocks bs

pub print_block : Bytes → Bytes → Bytes → Bytes
print_block name content rest = name ++ (b'{' ∷ (content ++ (b'}' ∷ b'\n' ∷ rest)))

pub print_blocks : List CodeBlock → Bytes
print_blocks [] = []
print_blocks (b ∷ bs) = print_block b.name b.content (print_blocks bs)

abbrev stream : Bytes → Stream
stream s = record { rest = s; good = true }

strip-content : (t : Bytes) → IsContent t → strip t ≡ t
unfolding strip
strip-content [] h = refl
strip-content (c ∷ t) h = strip-IsTrimmed (c ∷ t) h.0

content-IsBraced : (t : Bytes) → IsContent t → IsBraced 0 t
content-IsBraced [] h = refl
content-IsBraced (c ∷ t) h = h.1

parse_printed :
    (n t rest : Bytes)
    → IsTrimmed n
    → AllBytes is_block_name_char n
    → IsContent t
    → parse_code_block (stream (print_block n t rest))
      ≡ ok (some (record { name = n; content = t }), stream rest)
unfolding print_block
parse_printed [] t rest h k c = absurd h
parse_printed (x ∷ n) t rest h k c =
    parse_code_block_found [] x n t (b'\n' ∷ rest) tt h.0 k (content-IsBraced t c)
    ∙ rw (strip-IsTrimmed (x ∷ n) h, strip-content t c)

parse_end : parse_code_block (stream []) ≡ ok (none, record { rest = []; good = false })
unfolding parse_code_block
parse_end = refl

collect_found :
    (fuel : ℕ) (bs : List CodeBlock) (s t : Stream) (b : CodeBlock)
    → parse_code_block s ≡ ok (some b, t)
    → collect (suc fuel) bs s ≡ collect fuel (bs ++ (b ∷ [])) t
unfolding collect
collect_found fuel bs s t b e = rw (e, collect)

no_more_blocks :
    (fuel : ℕ) (bs : List CodeBlock) (s t : Stream)
    → parse_code_block s ≡ ok (none, t)
    → collect (suc fuel) bs s ≡ ok bs
unfolding collect
no_more_blocks fuel bs s t e = rw (e, collect)

collect_printed :
    (fuel : ℕ) (found bs : List CodeBlock)
    → AllBlocks bs
    → length bs < fuel
    → collect fuel found (stream (print_blocks bs)) ≡ ok (found ++ bs)
unfolding print_blocks
collect_printed zero found bs h f = absurd (omega arith)
collect_printed (suc fuel) found [] h f =
    no_more_blocks fuel found (stream []) (record { rest = []; good = false }) parse_end
    ∙ ap ok (sym (append-nil found))
collect_printed (suc fuel) found (b ∷ bs) h f =
    collect_found fuel found (stream (print_block b.name b.content (print_blocks bs)))
      (stream (print_blocks bs)) b
      (parse_printed b.name b.content (print_blocks bs) h.0.0 h.0.1 h.0.2)
    ∙ collect_printed fuel (found ++ (b ∷ [])) bs h.1 (omega arith)
    ∙ ap ok (append_assoc found (b ∷ []) bs)

length-print_blocks : (bs : List CodeBlock) → length bs ≤ length (print_blocks bs)
unfolding print_blocks print_block
length-print_blocks [] = omega arith
length-print_blocks (b ∷ bs) = omega (
  arith,
  length-append b.name (b'{' ∷ (b.content ++ (b'}' ∷ b'\n' ∷ print_blocks bs))),
  length-append b.content (b'}' ∷ b'\n' ∷ print_blocks bs),
  length-print_blocks bs,
)

-- Blocks that are written one to a line, a name, the content in braces and a newline, are read
-- back by `ParseCodeBlocks`, if no name or content has a space at an end, no name is empty or holds
-- a brace, and the braces of each content are balanced.
pub parse-print_blocks :
    (bs : List CodeBlock) → AllBlocks bs → parse_code_blocks (print_blocks bs) ≡ ok bs
unfolding parse_code_blocks
parse-print_blocks bs h =
    collect_printed (suc (suc (length (print_blocks bs)))) [] bs h
      (omega (arith, length-print_blocks bs))
