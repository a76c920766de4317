-- ===== src/Parse/Stream/Lines.antt =====
-- Which text `ReadMultiline` returns, and what it leaves on the stream.
use aphros_test.Base.{
  ℕ, ◌+◌, ◌≡◌, refl, sym, ap, ◌∙◌, Bool, true, false, not, ◌&&◌, [], ◌∷◌, ◌++◌, Bytes, arith,
  AllBytes, ◌==◌, ok, err, no_matching_quote, append-nil, append_assoc,
}
use aphros_test.Parse.Stream.{normal, quote, end_of_line, newlines, read_loop, read_multiline}
use aphros_test.Parse.Text.{strip}
use aphros_test.Parse.Text.StripLaws.{strip_spaces}

abbrev pub is_unquoted : ℕ → Bool
is_unquoted c = not (c == b'"') && not (c == b'\n')

abbrev pub is_quoted : ℕ → Bool
is_quoted c = not (c == b'"')

-- The newlines of a text.
unfoldable pub count_newlines : Bytes → ℕ
count_newlines [] = 0
count_newlines (c ∷ s) = newlines c + count_newlines s

-- The loop stands on the first character of a text `u` outside of quotes: it collects it.
loop_unquoted :
    (c : ℕ) (u : Bytes) (d : ℕ) (rest res : Bytes) (lines : ℕ)
    → AllBytes is_unquoted (c ∷ u)
    → read_loop normal c res lines (u ++ (d ∷ rest))
      ≡ read_loop normal d (res ++ (c ∷ u)) (lines + newlines d) rest
unfolding read_loop
loop_unquoted c [] d rest res lines h = ground (arith, h.0)
loop_unquoted c (x ∷ u) d rest res lines h =
    let step : read_loop normal c res lines (x ∷ (u ++ (d ∷ rest)))
        ≡ read_loop normal x (res ++ (c ∷ [])) lines (u ++ (d ∷ rest)) =
      ground (arith, h.0, h.1.0) in
    step
    ∙ loop_unquoted x u d rest (res ++ (c ∷ [])) lines h.1
    ∙ ap (λ (y : Bytes). read_loop normal d y (lines + newlines d) rest)
        (append_assoc res (c ∷ []) (x ∷ u))

-- Inside quotes newlines are collected too.
loop_quoted :
    (c : ℕ) (u : Bytes) (d : ℕ) (rest res : Bytes) (lines : ℕ)
    → AllBytes is_quoted (c ∷ u)
    → read_loop quote c res lines (u ++ (d ∷ rest))
      ≡ read_loop quote d (res ++ (c ∷ u)) (lines + count_newlines u + newlines d) rest
unfolding read_loop count_newlines
loop_quoted c [] d rest res lines h = ground (arith, h.0)
loop_quoted c (x ∷ u) d rest res lines h =
    let step : read_loop quote c res lines (x ∷ (u ++ (d ∷ rest)))
        ≡ read_loop quote x (res ++ (c ∷ [])) (lines + newlines x) (u ++ (d ∷ rest)) =
      ground (arith, h.0) in
    let count : lines + newlines x + count_newlines u + newlines d
        ≡ lines + (newlines x + count_newlines u) + newlines d =
      omega arith in
    step
    ∙ loop_quoted x u d rest (res ++ (c ∷ [])) (lines + newlines x) h.1
    ∙ rw (append_assoc res (c ∷ []) (x ∷ u), count)

strip_space : (u : Bytes) → strip (b' ' ∷ u) ≡ strip u
strip_space u =
    ap (λ (y : Bytes). strip (b' ' ∷ y)) (sym (append-nil u))
    ∙ strip_spaces (b' ' ∷ []) u [] (refl, tt) tt

loop_exit :
    (res : Bytes) (lines : ℕ) (rest : Bytes)
    → read_loop normal b'\n' res lines rest ≡ end_of_line res lines rest
unfolding read_loop
loop_exit res lines [] = refl
loop_exit res lines (d ∷ rest) = refl

end_of_line_space :
    (u : Bytes) (lines : ℕ) (rest : Bytes)
    → end_of_line (b' ' ∷ u) lines rest
      ≡ ok (record {
        content = strip u;
        lines = lines;
        stream = record { rest = rest; good = true };
      })
unfolding end_of_line
end_of_line_space u lines rest = rw (strip_space u)

read_multiline-loop :
    (rest : Bytes)
    → read_multiline (record { rest = rest; good = true }) ≡ read_loop normal b' ' [] 0 rest
unfolding read_multiline
read_multiline-loop rest = refl

-- A line with no quotes is returned without the spaces round it, and the stream stands behind its
-- newline.
pub read_multiline_line :
    (u rest : Bytes)
    → AllBytes is_unquoted u
    → read_multiline (record { rest = u ++ (b'\n' ∷ rest); good = true })
      ≡ ok (record { content = strip u; lines = 1; stream = record { rest = rest; good = true } })
read_multiline_line u rest h =
    read_multiline-loop (u ++ (b'\n' ∷ rest))
    ∙ loop_unquoted b' ' u b'\n' rest [] 0 (refl, h)
    ∙ loop_exit (b' ' ∷ u) 1 rest
    ∙ end_of_line_space u 1 rest

loop_last :
    (c : ℕ) (u res : Bytes) (lines : ℕ)
    → AllBytes is_unquoted (c ∷ u)
    → read_loop normal c res lines u
      ≡ ok (record {
        content = strip (res ++ (c ∷ u));
        lines = lines;
        stream = record { rest = []; good = false };
      })
unfolding read_loop
loop_last c [] res lines h = ground (arith, h.0)
loop_last c (x ∷ u) res lines h =
    let step : read_loop normal c res lines (x ∷ u) ≡ read_loop normal x (res ++ (c ∷ [])) lines u =
      ground (arith, h.0, h.1.0) in
    step ∙ loop_last x u (res ++ (c ∷ [])) lines h.1 ∙ rw (append_assoc res (c ∷ []) (x ∷ u))

-- The last line of a stream needs no newline; the stream has ended behind it.
pub read_multiline_last :
    (u : Bytes)
    → AllBytes is_unquoted u
    → read_multiline (record { rest = u; good = true })
      ≡ ok (record { content = strip u; lines = 0; stream = record { rest = []; good = false } })
read_multiline_last u h =
    read_multiline-loop u ∙ loop_last b' ' u [] 0 (refl, h) ∙ rw (strip_space u)

loop_open :
    (d : ℕ) (res rest : Bytes) (lines : ℕ)
    → read_loop normal b'"' res lines (d ∷ rest) ≡ read_loop quote d res (lines + newlines d) rest
unfolding read_loop
loop_open d res rest lines = refl

loop_close :
    (d : ℕ) (res rest : Bytes) (lines : ℕ)
    → read_loop quote b'"' res lines (d ∷ rest) ≡ read_loop normal d res (lines + newlines d) rest
unfolding read_loop
loop_close d res rest lines = refl

-- From the opening quote to the closing one.
loop_part :
    (q res s : Bytes) (lines : ℕ)
    → AllBytes is_quoted q
    → read_loop normal b'"' res lines (q ++ (b'"' ∷ s))
      ≡ read_loop quote b'"' (res ++ q) (lines + count_newlines q) s
unfolding count_newlines
loop_part [] res s lines h = loop_open b'"' res s lines ∙ rw (append-nil res)
loop_part (c ∷ q) res s lines h =
    let count : lines + newlines c + count_newlines q + 0
        ≡ lines + (newlines c + count_newlines q) =
      omega arith in
    loop_open c res (q ++ (b'"' ∷ s)) lines
    ∙ loop_quoted c q b'"' s res (lines + newlines c) h
    ∙ ap (λ (n : ℕ). read_loop quote b'"' (res ++ (c ∷ q)) n s) count

-- From the closing quote to the end of the line.
loop_behind :
    (w res rest : Bytes) (lines : ℕ)
    → AllBytes is_unquoted w
    → read_loop quote b'"' res lines (w ++ (b'\n' ∷ rest)) ≡ end_of_line (res ++ w) (lines + 1) rest
loop_behind [] res rest lines h =
    loop_close b'\n' res rest lines ∙ loop_exit res (lines + 1) rest ∙ rw (append-nil res)
loop_behind (d ∷ w) res rest lines h =
    let plain : lines + newlines d ≡ lines = ground (arith, h.0) in
    loop_close d res (w ++ (b'\n' ∷ rest)) lines
    ∙ loop_unquoted d w b'\n' rest res (lines + newlines d) h
    ∙ loop_exit (res ++ (d ∷ w)) (lines + newlines d + 1) rest
    ∙ ap (λ (n : ℕ). end_of_line (res ++ (d ∷ w)) (n + 1) rest) plain

zero_plus : (n : ℕ) → 0 + n ≡ n
zero_plus n = omega arith

-- A line with one quoted part, empty or not, which may hold newlines, and any text before and behind
-- it, is returned without the quotes and without the spaces round the whole; the newlines inside are
-- counted with the one that ends the line, and the stream stands behind that.
pub read_multiline_quoted :
    (u q w rest : Bytes)
    → AllBytes is_unquoted u
    → AllBytes is_quoted q
    → AllBytes is_unquoted w
    → read_multiline
        (record { rest = u ++ (b'"' ∷ (q ++ (b'"' ∷ (w ++ (b'\n' ∷ rest))))); good = true })
      ≡ ok (record {
        content = strip ((u ++ q) ++ w);
        lines = count_newlines q + 1;
        stream = record { rest = rest; good = true };
      })
read_multiline_quoted u q w rest h k l =
    read_multiline-loop (u ++ (b'"' ∷ (q ++ (b'"' ∷ (w ++ (b'\n' ∷ rest))))))
    ∙ loop_unquoted b' ' u b'"' (q ++ (b'"' ∷ (w ++ (b'\n' ∷ rest)))) [] 0 (refl, h)
    ∙ loop_part q (b' ' ∷ u) (w ++ (b'\n' ∷ rest)) 0 k
    ∙ loop_behind w (b' ' ∷ (u ++ q)) rest (0 + count_newlines q) l
    ∙ rw (zero_plus (count_newlines q))
        (end_of_line_space ((u ++ q) ++ w) (count_newlines q + 1) rest)

loop_unmatched :
    (c : ℕ) (u res : Bytes) (lines : ℕ)
    → AllBytes is_quoted (c ∷ u)
    → read_loop quote c res lines u ≡ err no_matching_quote
unfolding read_loop
loop_unmatched c [] res lines h = ground (arith, h.0)
loop_unmatched c (x ∷ u) res lines h =
    ground (arith, h.0, loop_unmatched x u (res ++ (c ∷ [])) (lines + newlines x) h.1)

loop_open_end :
    (res : Bytes) (lines : ℕ) → read_loop normal b'"' res lines [] ≡ err no_matching_quote
unfolding read_loop
loop_open_end res lines = refl

-- Where a text opens a quote in its first line, with no quote before, and holds no other quote, it
-- is an error, whatever follows the quote and whether anything does.
pub read_multiline_unmatched :
    (u q : Bytes)
    → AllBytes is_unquoted u
    → AllBytes is_quoted q
    → read_multiline (record { rest = u ++ (b'"' ∷ q); good = true }) ≡ err no_matching_quote
read_multiline_unmatched u [] h k =
    read_multiline-loop (u ++ (b'"' ∷ []))
    ∙ loop_unquoted b' ' u b'"' [] [] 0 (refl, h)
    ∙ loop_open_end (b' ' ∷ u) 0
read_multiline_unmatched u (c ∷ q) h k =
    read_multiline-loop (u ++ (b'"' ∷ c ∷ q))
    ∙ loop_unquoted b' ' u b'"' (c ∷ q) [] 0 (refl, h)
    ∙ loop_open c (b' ' ∷ u) q 0
    ∙ loop_unmatched c q (b' ' ∷ u) (0 + newlines c) k
