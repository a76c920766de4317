-- ===== src/Parse/CodeBlocks/Blocks.antt =====
-- What `ParseCodeBlocks` finds in a text made of blocks.
use aphros_test.Base.{
  ℕ, zero, suc, ◌≡◌, ◌≢◌, refl, ap, ◌∙◌, Bool, true, false, not, ◌&&◌, [], ◌∷◌, ◌++◌, Bytes, ◌==◌,
  if◌then◌else◌, AllBytes, ok, some, arith, append_assoc,
}
use aphros_test.Parse.CodeBlocks.{
  Mode, name, content, State, leave, read_block, initial, parse_code_block,
}
use aphros_test.Parse.Stream.{Stream}
use aphros_test.Parse.Text.{is_space, strip}

-- Characters of a name.
abbrev pub is_block_name_char : ℕ → Bool
is_block_name_char c = not (c == b'{') && not (c == b'}')

-- From `depth` open braces the text closes each one, and none before it is opened.
abbrev pub IsBraced : ℕ → Bytes → Type 0
IsBraced depth [] = depth ≡ 0
IsBraced zero (c ∷ t) = (c ≢ b'}') × IsBraced (if c == b'{' then 1 else 0) t
IsBraced (suc depth) (c ∷ t) =
    IsBraced (if c == b'{' then suc (suc depth) else if c == b'}' then depth else suc depth) t

abbrev at : Mode → Bytes → Bytes → ℕ → State
at m n t b = record { mode = m; block = record { name = n; content = t }; braces = b }

-- Spaces before a name are skipped.
read_spaces :
    (c : ℕ) (ws : Bytes) (d : ℕ) (rest : Bytes)
    → AllBytes is_space (c ∷ ws)
    → read_block initial c (ws ++ (d ∷ rest)) ≡ read_block initial d rest
unfolding read_block
read_spaces c [] d rest h = ground (arith, h.0)
read_spaces c (x ∷ ws) d rest h =
    let step : read_block initial c (x ∷ (ws ++ (d ∷ rest)))
        ≡ read_block initial x (ws ++ (d ∷ rest)) =
      ground (arith, h.0) in
    step ∙ read_spaces x ws d rest h.1

read_name :
    (c : ℕ) (u : Bytes) (d : ℕ) (rest acc : Bytes)
    → AllBytes is_block_name_char (c ∷ u)
    → read_block (at name acc [] 0) c (u ++ (d ∷ rest))
      ≡ read_block (at name (acc ++ (c ∷ u)) [] 0) d rest
unfolding read_block
read_name c [] d rest acc h = ground (arith, h.0)
read_name c (x ∷ u) d rest acc h =
    let step : read_block (at name acc [] 0) c (x ∷ (u ++ (d ∷ rest)))
        ≡ read_block (at name (acc ++ (c ∷ [])) [] 0) x (u ++ (d ∷ rest)) =
      ground (arith, h.0) in
    step
    ∙ read_name x u d rest (acc ++ (c ∷ [])) h.1
    ∙ ap (λ (y : Bytes). read_block (at name y [] 0) d rest) (append_assoc acc (c ∷ []) (x ∷ u))

-- The first character of a name is read in the state `begin`.
read_begin :
    (c : ℕ) (rest : Bytes)
    → is_space c ≡ false
    → read_block initial c rest ≡ read_block (at name [] [] 0) c rest
unfolding read_block
read_begin c [] h = ground arith
read_begin c (d ∷ rest) h = ground arith

read_open :
    (d : ℕ) (rest n : Bytes)
    → read_block (at name n [] 0) b'{' (d ∷ rest) ≡ read_block (at content n [] 0) d rest
unfolding read_block
read_open d rest n = refl

read_content :
    (b c : ℕ) (u rest n acc : Bytes)
    → IsBraced b (c ∷ u)
    → read_block (at content n acc b) c (u ++ (b'}' ∷ rest))
      ≡ read_block (at content n (acc ++ (c ∷ u)) 0) b'}' rest
unfolding read_block
read_content zero c [] rest n acc h = ground (arith, h.0, h.1)
read_content zero c (x ∷ u) rest n acc h =
    let step : read_block (at content n acc 0) c (x ∷ (u ++ (b'}' ∷ rest)))
        ≡ read_block (at content n (acc ++ (c ∷ [])) (if c == b'{' then 1 else 0)) x
            (u ++ (b'}' ∷ rest)) =
      ground (arith, h.0) in
    step
    ∙ read_content (if c == b'{' then 1 else 0) x u rest n (acc ++ (c ∷ [])) h.1
    ∙ ap (λ (y : Bytes). read_block (at content n y 0) b'}' rest)
        (append_assoc acc (c ∷ []) (x ∷ u))
read_content (suc b) c [] rest n acc h = ground (arith, h)
read_content (suc b) c (x ∷ u) rest n acc h =
    let step : read_block (at content n acc (suc b)) c (x ∷ (u ++ (b'}' ∷ rest)))
        ≡ read_block
            (at content n (acc ++ (c ∷ []))
              (if c == b'{' then suc (suc b) else if c == b'}' then b else suc b))
            x (u ++ (b'}' ∷ rest)) =
      ground (arith) in
    step
    ∙ read_content (if c == b'{' then suc (suc b) else if c == b'}' then b else suc b) x u rest n
        (acc ++ (c ∷ [])) h
    ∙ ap (λ (y : Bytes). read_block (at content n y 0) b'}' rest)
        (append_assoc acc (c ∷ []) (x ∷ u))

read_close :
    (rest n t : Bytes)
    → read_block (at content n t 0) b'}' rest ≡ ok (leave (record { name = n; content = t }) rest)
unfolding read_block
read_close [] n t = refl
read_close (d ∷ rest) n t = refl

read_open_close :
    (n rest : Bytes)
    → read_block (at name n [] 0) b'{' (b'}' ∷ rest)
      ≡ ok (leave (record { name = n; content = [] }) rest)
read_open_close n rest = read_open b'}' rest n ∙ read_close rest n []

read_block_content :
    (n t rest : Bytes)
    → IsBraced 0 t
    → read_block (at name n [] 0) b'{' (t ++ (b'}' ∷ rest))
      ≡ ok (leave (record { name = n; content = t }) rest)
read_block_content n [] rest h = read_open_close n rest
read_block_content n (c ∷ t) rest h =
    read_open c (t ++ (b'}' ∷ rest)) n ∙ read_content 0 c t rest n [] h ∙ read_close rest n (c ∷ t)

parse_code_block-read :
    (rest : Bytes)
    → parse_code_block (record { rest = rest; good = true }) ≡ read_block initial b' ' rest
unfolding parse_code_block
parse_code_block-read rest = refl

-- The text of a block behind spaces.
abbrev pub block_text : Bytes → ℕ → Bytes → Bytes → Bytes → Bytes
block_text ws c n t rest = ws ++ (c ∷ (n ++ (b'{' ∷ (t ++ (b'}' ∷ rest)))))

-- The stream behind one character, which it may not have.
abbrev pub behind_one : Bytes → Stream
behind_one [] = record { rest = []; good = false }
behind_one (d ∷ rest) = record { rest = rest; good = true }

leave-behind_one :
    (n t rest : Bytes)
    → leave (record { name = n; content = t }) rest
      ≡ (some (record { name = strip n; content = strip t }), behind_one rest)
unfolding leave
leave-behind_one n t [] = refl
leave-behind_one n t (d ∷ rest) = refl

-- A block is found behind any spaces, with its name and its content, both without the spaces round
-- them: the name begins with no space and holds no brace, and the braces of the content are
-- balanced. The stream is left behind the closing brace and one character more, whatever that is;
-- where there is none, it is exhausted and not good.
pub parse_code_block_found :
    (ws : Bytes) (c : ℕ) (n t rest : Bytes)
    → AllBytes is_space ws
    → is_space c ≡ false
    → AllBytes is_block_name_char (c ∷ n)
    → IsBraced 0 t
    → parse_code_block (record { rest = block_text ws c n t rest; good = true })
      ≡ ok (some (record { name = strip (c ∷ n); content = strip t }), behind_one rest)
parse_code_block_found ws c n t rest h s k b =
    parse_code_block-read (block_text ws c n t rest)
    ∙ read_spaces b' ' ws c (n ++ (b'{' ∷ (t ++ (b'}' ∷ rest)))) (refl, h)
    ∙ read_begin c (n ++ (b'{' ∷ (t ++ (b'}' ∷ rest)))) s
    ∙ read_name c n b'{' (t ++ (b'}' ∷ rest)) [] k
    ∙ read_block_content (c ∷ n) t rest b
    ∙ ap ok (leave-behind_one (c ∷ n) t rest)
