-- ===== src/Util/Format/Fields.antt =====
-- What `ParseFormat` makes of text with fields.
use aphros_test.Base.Machine.{Next, more, done, outcome, run-outcome, outcome_more, outcome_done}
use aphros_test.Base.{
  ℕ, zero, suc, ◌+◌, ◌*◌, ◌<◌, ◌≡◌, refl, sym, ap, ◌∙◌, ◌⊎◌, inl, inr, Bool, true, false, not, ◌&&◌,
  List, [], ◌∷◌, ◌++◌, Option, none, some, Bytes, AllBytes, append-nil, append_assoc, arith, ◌==◌,
  ltb, if◌then◌else◌, length, get_elem?, out_of_range, Result, ok, err,
}
use aphros_test.Parse.Expand.Pieces.{prefix, prefix-prefix}
use aphros_test.Util.Format.{
  Mode, normal, curly, givenindex, colon, width, precision, type, write, Mod, no_mod, State,
  Printer, Layout, general, match_char, digits, types, field_index, layout_of, write_field, step_in,
  step, initial, parse_format,
}

-- The states that do not always take a character stand higher.
abbrev rank : Mode → ℕ
rank write = 0
rank type = 0
rank _ = 1

abbrev measure : State → ℕ
measure s = length s.rest * 2 + rank s.mode

abbrev Falls : State → Next State Bytes → Type 0
Falls s (more t) = measure t < measure s
Falls s (done r) = Unit {0}

write_field-Falls :
    (printers : List Printer) (c : ℕ) (r : Bytes) (s : State)
    → s.rest ≡ c ∷ r
    → Falls s (write_field printers r s)
unfolding write_field
write_field-Falls printers c r s h =
    elim (field_index s.mod_ s.auto_index (length printers))
      as (λ x. Falls s (elim x [
        | err e ↦ done (err e)
        | ok (index, auto) ↦ elim (layout_of s.mod_) [
          | err e ↦ done (err e)
          | ok layout ↦ elim (get_elem? printers index) [
            | none ↦ done (err out_of_range)
            | some print ↦ more (record s {
              mode = normal;
              rest = r;
              res = s.res ++ print layout;
              auto_index = auto;
            })
          ]
        ]
      ])) [
        | err e ↦ tt
        | ok (index, auto) ↦
            elim (layout_of s.mod_)
              as (λ x. Falls s (elim x [
                | err e ↦ done (err e)
                | ok layout ↦ elim (get_elem? printers index) [
                  | none ↦ done (err out_of_range)
                  | some print ↦ more (record s {
                    mode = normal;
                    rest = r;
                    res = s.res ++ print layout;
                    auto_index = auto;
                  })
                ]
              ])) [
                | err e ↦ tt
                | ok layout ↦
                    elim (get_elem? printers index)
                      as (λ x. Falls s (elim x [
                        | none ↦ done (err out_of_range)
                        | some print ↦ more (record s {
                          mode = normal;
                          rest = r;
                          res = s.res ++ print layout;
                          auto_index = auto;
                        })
                      ])) [ none ↦ tt | some print ↦ ground (arith, h) ]
              ]
      ]

step_in-Falls :
    (printers : List Printer) (m : Mode) (c : ℕ) (r : Bytes) (s : State)
    → s.mode ≡ m
    → s.rest ≡ c ∷ r
    → Falls s (step_in printers m c r s)
unfolding step_in
step_in-Falls printers normal c [] s e h = ground (arith, e, h)
step_in-Falls printers normal c (d ∷ r) s e h = ground (arith, e, h)
step_in-Falls printers curly c r s e h = ground (arith, e, h)
step_in-Falls printers givenindex c r s e h = ground (arith, e, h)
step_in-Falls printers colon c r s e h = ground (arith, e, h)
step_in-Falls printers width c r s e h = ground (arith, e, h)
step_in-Falls printers precision c r s e h = ground (arith, e, h)
step_in-Falls printers type c r s e h = ground (arith, e, h)
step_in-Falls printers write c r s e h = ground (arith, e, h, write_field-Falls printers c r s h)

step-Falls : (printers : List Printer) (s : State) → Falls s (step printers s)
unfolding step
step-Falls printers s = go s.rest refl
  where
    go :
        (u : Bytes)
        → s.rest ≡ u
        → Falls s (elim u [ [] ↦ done (ok s.res) | c ∷ r ↦ step_in printers s.mode c r s ])
    go [] e = tt
    go (c ∷ r) e = step_in-Falls printers s.mode c r s refl e

step_falls :
    (printers : List Printer) (s t : State) → step printers s ≡ more t → measure t < measure s
step_falls printers s t e = rw e at (step-Falls printers s)

abbrev result : List Printer → State → Result Bytes
result printers s = outcome (step printers) measure (step_falls printers) s

result_more :
    (printers : List Printer) (s t : State)
    → step printers s ≡ more t
    → result printers s ≡ result printers t
result_more printers s t e = outcome_more (step printers) measure (step_falls printers) s t e

result_done :
    (printers : List Printer) (s : State) (r : Result Bytes)
    → step printers s ≡ done r
    → result printers s ≡ r
result_done printers s r e = outcome_done (step printers) measure (step_falls printers) s r e

-- Plain text, the two doubled braces, and a field with neither a number nor a layout.
pub data Piece : Type 0 where
  plain : Bytes → Piece
  opening closing field : Piece

abbrev pub is_plain : ℕ → Bool
is_plain c = not (c == b'{') && not (c == b'}')

abbrev pub IsProper : List Piece → Type 0
IsProper [] = Unit {0}
IsProper (plain t ∷ ps) = AllBytes is_plain t × IsProper ps
IsProper (p ∷ ps) = IsProper ps

unfoldable pub render : List Piece → Bytes
render [] = []
render (plain t ∷ ps) = t ++ render ps
render (opening ∷ ps) = b'{' ∷ b'{' ∷ render ps
render (closing ∷ ps) = b'}' ∷ b'}' ∷ render ps
render (field ∷ ps) = b'{' ∷ b'}' ∷ render ps

abbrev pub plain_layout : Layout
plain_layout = record { precision = none; width = none; zero_fill = false; notation = general }

abbrev pub print_then : Option Printer → Result Bytes → Result Bytes
print_then none m = err out_of_range
print_then (some print) m = prefix (print plain_layout) m

-- The fields stand for the arguments from number `i` on, in their order.
unfoldable pub meaning : List Printer → ℕ → List Piece → Result Bytes
meaning printers i [] = ok []
meaning printers i (plain t ∷ ps) = prefix t (meaning printers i ps)
meaning printers i (opening ∷ ps) = prefix (b'{' ∷ []) (meaning printers i ps)
meaning printers i (closing ∷ ps) = prefix (b'}' ∷ []) (meaning printers i ps)
meaning printers i (field ∷ ps) = print_then (get_elem? printers i) (meaning printers (i + 1) ps)

abbrev at : Bytes → Bytes → Mod → ℕ → State
at rest res m i = record { mode = normal; rest = rest; res = res; mod_ = m; auto_index = i }

result_plain :
    (printers : List Printer) (t rest res : Bytes) (m : Mod) (i : ℕ)
    → AllBytes is_plain t
    → result printers (at (t ++ rest) res m i) ≡ result printers (at rest (res ++ t) m i)
unfolding step step_in
result_plain printers [] rest res m i h =
    ap (λ (x : Bytes). result printers (at rest x m i)) (sym (append-nil res))
result_plain printers (c ∷ t) rest res m i h =
    result_more printers (at (c ∷ (t ++ rest)) res m i) (at (t ++ rest) (res ++ (c ∷ [])) m i)
      (ground (arith, h.0))
    ∙ result_plain printers t rest (res ++ (c ∷ [])) m i h.1
    ∙ ap (λ (x : Bytes). result printers (at rest x m i)) (append_assoc res (c ∷ []) t)

index-get_elem? :
    {A : Type 0} (l : List A) (i : ℕ)
    → (get_elem? l i ≡ none × ltb i (length l) ≡ false)
      ⊎ ((a : A) × (get_elem? l i ≡ some a) × (ltb i (length l) ≡ true))
index-get_elem? [] i = inl (refl, ground arith)
index-get_elem? (a ∷ l) zero = inr (a, refl, ground arith)
index-get_elem? (a ∷ l) (suc i) = ground (arith, index-get_elem? l i)

abbrev in_field : Mode → Bytes → Bytes → ℕ → State
in_field m rest res i = record {
  mode = m;
  rest = b'}' ∷ rest;
  res = res;
  mod_ = no_mod;
  auto_index = i;
}

index_none : (i n : ℕ) → ltb i n ≡ false → field_index no_mod i n ≡ err out_of_range
unfolding field_index
index_none i n h = ap (λ (b : Bool). if b then ok (i, i + 1) else err out_of_range) h

index_some : (i n : ℕ) → ltb i n ≡ true → field_index no_mod i n ≡ ok (i, i + 1)
unfolding field_index
index_some i n h = ap (λ (b : Bool). if b then ok (i, i + 1) else err out_of_range) h

abbrev print_field : State → Bytes → ℕ → Option Printer → Next State Bytes
print_field s r auto p = elim p [
  | none ↦ done (err out_of_range)
  | some print ↦
      more
        (record s { mode = normal; rest = r; res = s.res ++ print plain_layout; auto_index = auto })
]

abbrev index_field : List Printer → State → Bytes → Result (ℕ × ℕ) → Next State Bytes
index_field printers s r x = elim x [
  | err e ↦ done (err e)
  | ok (index, auto) ↦ print_field s r auto (get_elem? printers index)
]

step_write :
    (printers : List Printer) (rest res : Bytes) (i : ℕ)
    → step printers (in_field write rest res i)
      ≡ index_field printers
          (in_field write rest res i)
          rest
          (field_index no_mod i (length printers))
unfolding step step_in write_field layout_of aphros_test.Util.Format.setting
    aphros_test.Util.Format.notation_of
step_write printers rest res i = refl

write_plain :
    (printers : List Printer) (rest res : Bytes) (i : ℕ)
    → ((get_elem? printers i ≡ none)
        × (step printers (in_field write rest res i) ≡ done (err out_of_range)))
      ⊎ ((print : Printer) × (get_elem? printers i ≡ some print)
          × (step printers (in_field write rest res i)
              ≡ more (at rest (res ++ print plain_layout) no_mod (i + 1))))
write_plain printers rest res i = elim (index-get_elem? printers i) [
  | inl (e, f) ↦ inl (
    e,
    step_write printers rest res i
        ∙ ap (index_field printers (in_field write rest res i) rest)
            (index_none i (length printers) f),
  )
  | inr (print, e, f) ↦ inr (
    print,
    e,
    step_write printers rest res i
        ∙ ap (index_field printers (in_field write rest res i) rest)
            (index_some i (length printers) f)
        ∙ ap (print_field (in_field write rest res i) rest (i + 1)) e,
  )
]

result_field :
    (printers : List Printer) (rest res : Bytes) (m : Mod) (i : ℕ)
    → result printers (at (b'{' ∷ b'}' ∷ rest) res m i)
      ≡ result printers (in_field write rest res i)
unfolding step step_in
result_field printers rest res m i =
    result_more printers (at (b'{' ∷ b'}' ∷ rest) res m i) (in_field curly rest res i) refl
    ∙ result_more printers (in_field curly rest res i) (in_field write rest res i) refl

result_twice :
    (printers : List Printer) (rest res : Bytes) (m : Mod) (i : ℕ)
    → (result printers (at (b'{' ∷ b'{' ∷ rest) res m i)
        ≡ result printers (at rest (res ++ (b'{' ∷ [])) m i))
      × (result printers (at (b'}' ∷ b'}' ∷ rest) res m i)
          ≡ result printers (at rest (res ++ (b'}' ∷ [])) m i))
unfolding step step_in
result_twice printers rest res m i = (
  result_more printers (at (b'{' ∷ b'{' ∷ rest) res m i) (at rest (res ++ (b'{' ∷ [])) m i) refl,
  result_more printers (at (b'}' ∷ b'}' ∷ rest) res m i) (at rest (res ++ (b'}' ∷ [])) m i) refl,
)

result-render :
    (printers : List Printer) (ps : List Piece) (res : Bytes) (m : Mod) (i : ℕ)
    → IsProper ps
    → result printers (at (render ps) res m i) ≡ prefix res (meaning printers i ps)
unfolding render meaning step
result-render printers [] res m i h =
    result_done printers (at [] res m i) (ok res) refl ∙ ap ok (sym (append-nil res))
result-render printers (plain t ∷ ps) res m i h =
    result_plain printers t (render ps) res m i h.0
    ∙ result-render printers ps (res ++ t) m i h.1
    ∙ sym (prefix-prefix res t (meaning printers i ps))
result-render printers (opening ∷ ps) res m i h =
    (result_twice printers (render ps) res m i).0
    ∙ result-render printers ps (res ++ (b'{' ∷ [])) m i h
    ∙ sym (prefix-prefix res (b'{' ∷ []) (meaning printers i ps))
result-render printers (closing ∷ ps) res m i h =
    (result_twice printers (render ps) res m i).1
    ∙ result-render printers ps (res ++ (b'}' ∷ [])) m i h
    ∙ sym (prefix-prefix res (b'}' ∷ []) (meaning printers i ps))
result-render printers (field ∷ ps) res m i h =
    result_field printers (render ps) res m i ∙ elim (write_plain printers (render ps) res i) [
      | inl (e, stop) ↦
          result_done printers (in_field write (render ps) res i) (err out_of_range) stop
          ∙ rw e refl
      | inr (print, e, go) ↦
          result_more printers (in_field write (render ps) res i)
            (at (render ps) (res ++ print plain_layout) no_mod (i + 1)) go
          ∙ result-render printers ps (res ++ print plain_layout) no_mod (i + 1) h
          ∙ rw e (sym (prefix-prefix res (print plain_layout) (meaning printers (i + 1) ps)))
    ]

-- `ParseFormat` of text with doubled braces and fields that have neither a number nor a layout
-- keeps the text, halves the braces and puts the arguments in the place of the fields, in their
-- order; more fields than arguments are an error.
pub parse_format-render :
    (printers : List Printer) (ps : List Piece)
    → IsProper ps
    → parse_format (render ps) printers ≡ meaning printers 0 ps
unfolding parse_format
parse_format-render printers ps h =
    run-outcome (step printers) measure (step_falls printers) (suc (length (render ps) * 2 + 1))
      (initial (render ps)) (omega arith)
    ∙ result-render printers ps [] no_mod 0 h
    ∙ prefix_nil (meaning printers 0 ps)
  where
    prefix_nil : (m : Result Bytes) → prefix [] m ≡ m
    prefix_nil (ok v) = refl
    prefix_nil (err e) = refl
