-- ===== src/Util/Suspender.antt =====
-- `Suspender` of util/suspender.cpp: functions in stages, of which each call executes one. The
-- user's context object of a level is left out.
pub mod Stages
use mathlib.Core.List.{reverse}
use aphros_test.Parse.Number.{print_int}
use aphros_test.Base.{
  ◌-◌, ◌/◌, ◌%◌, ◌++◌, codes, ℕ, zero, suc, ◌+◌, Bool, true, false, not, ◌&&◌, ◌||◌, List, [], ◌∷◌,
  Bytes, if◌then◌else◌, Error, nested_call, assertion, Result, ok, err,
}
use aphros_test.Base.Int.{ℤ, pos, negsuc, ◌+ℤ◌, eqb_ℤ, ltb_ℤ, leb_ℤ, ◌-ℤ◌}

-- `Suspender::State`
pub record Level : Type 0 where
  pub current : ℤ
  pub target : ℤ
  pub name : Bytes
  pub suff : Bytes
  pub suff_id : ℤ
  pub loop_begin : ℤ
  pub loop_end : ℤ

abbrev pub new_level : ℤ → ℤ → Bytes → Level
new_level current target name = record {
  current = current;
  target = target;
  name = name;
  suff = [];
  suff_id = pos 0;
  loop_begin = negsuc 0;
  loop_end = negsuc 0;
}

-- The list `states_` with the iterator `pos_` at `here`: `above` holds the levels before it, the
-- nearest first, and `below` the levels behind it.
pub record Suspender : Type 0 where
  pub above : List Level
  pub here : Level
  pub below : List Level
  pub allow_nested : Bool
  pub depth : ℕ

-- `Suspender()`
abbrev pub new_suspender : Suspender
new_suspender = record {
  above = [];
  here = new_level (negsuc 0) (negsuc 0) [];
  below = [];
  allow_nested = false;
  depth = 0;
}

-- On the first level nested calls are allowed and the depth starts again.
unfoldable pub enter_first : Suspender → Suspender
enter_first s = elim s.above [ [] ↦ record s { allow_nested = true; depth = 0 } | a ∷ ls ↦ s ]

-- The step to the next level, which is added where there is none.
unfoldable pub descend : Bytes → Suspender → Suspender
descend name s = elim s.below [
  | [] ↦ record s {
    above = s.here ∷ s.above;
    here = record (new_level (pos 0) (pos 0) name) { current = pos 0 };
    allow_nested = false;
  }
  | l ∷ ls ↦ record s {
    above = s.here ∷ s.above;
    here = record l { current = pos 0 };
    below = ls;
    allow_nested = false;
  }
]

-- `Sem::Sem`
unfoldable pub new_sem : Bytes → Suspender → Result Suspender
unfolding enter_first descend
new_sem name s =
    let t = enter_first s in if t.allow_nested then ok (descend name t) else err nested_call

-- A level with no level behind it: the next stage, or the end of the level.
unfoldable pub finish : Level → List Level
finish l =
    let next = l.target +ℤ pos 1 in
    if eqb_ℤ l.current next || eqb_ℤ l.current (pos 0) then [] else record l { target = next } ∷ []

-- `Sem::~Sem`; without a level above it asserts.
unfoldable pub destroy : Suspender → Result Suspender
unfolding finish
destroy s = elim s.above [
  | [] ↦ err assertion
  | a ∷ up ↦ elim s.below [
    | [] ↦ ok (record s { above = up; here = a; below = finish s.here })
    | l ∷ ls ↦ ok (record s { above = up; here = a; below = s.here ∷ (l ∷ ls) })
  ]
]

-- `Sem::Next`
unfoldable pub next : Bytes → Suspender → Bool × Suspender
next suff s =
    if eqb_ℤ s.here.current s.here.target
    then (
      true,
      record s {
        here = record s.here {
          current = s.here.current +ℤ pos 1;
          suff = suff;
          suff_id = s.here.target;
        };
        depth = s.depth + 1;
      },
    )
    else (false, record s { here = record s.here { current = s.here.current +ℤ pos 1 } })

-- `Sem::operator()`
unfoldable pub call : Bytes → Suspender → Bool × Suspender
unfolding next
call suff s = next suff (record s { allow_nested = false })

-- `Sem::Nested`
unfoldable pub nested : Bytes → Suspender → Bool × Suspender
unfolding next
nested suff s = next suff (record s { allow_nested = true })

-- `Sem::LoopBegin`
unfoldable pub loop_begin : Level → Level
loop_begin l =
    let entered =
      if eqb_ℤ l.current l.target
      then record l {
        loop_begin = if ltb_ℤ l.loop_begin l.current then l.current else l.loop_begin;
        target = l.target +ℤ pos 1;
      }
      else l in
    record entered { current = entered.current +ℤ pos 1 }

-- `Sem::LoopBreak`
unfoldable pub loop_break : Level → Level
loop_break l = record l { target = l.loop_end }

-- `Sem::LoopEnd`
unfoldable pub loop_end : Level → Level
loop_end l =
    let known =
      if ltb_ℤ l.loop_end l.loop_begin && leb_ℤ l.loop_begin l.target
      then record l { loop_end = l.current }
      else l in
    let turned =
      if eqb_ℤ known.current (known.target +ℤ pos 1)
      then record known { target = known.loop_begin }
      else known in
    record turned { current = turned.current +ℤ pos 1 }

-- `Pending`: more levels than the auxiliary one.
unfoldable pub pending : Suspender → Bool
pending s = elim s.above [ a ∷ ls ↦ true | [] ↦ elim s.below [ [] ↦ false | l ∷ ls ↦ true ] ]

-- `'0' + n % 10`, where the remainder has the sign of `n`.
unfoldable pub digit : ℤ → ℕ
digit (pos n) = b'0' + n % 10
digit (negsuc n) = b'0' - (n + 1) % 10

-- `n / 10`, towards zero.
unfoldable pub tenth : ℤ → ℤ
tenth (pos n) = pos (n / 10)
tenth (negsuc n) = pos 0 -ℤ pos ((n + 1) / 10)

unfoldable pub print_level : Level → Bytes
unfolding digit tenth
print_level l = l.name ++ (b':' ∷ digit (tenth l.suff_id) ∷ digit l.suff_id ∷ b':' ∷ l.suff)

-- All levels from the auxiliary one on.
abbrev pub all_levels : Suspender → List Level
all_levels s = reverse s.above ++ (s.here ∷ s.below)

-- `GetNameSequence`
unfoldable pub join_names : List Level → Bytes
unfolding print_level
join_names [] = []
join_names (l ∷ []) = print_level l
join_names (l ∷ k ∷ ls) = print_level l ++ (codes " --> " ++ join_names (k ∷ ls))

unfoldable pub name_sequence : Suspender → Bytes
unfolding join_names
name_sequence s = join_names (all_levels s)

-- `Print`
unfoldable pub print_counters : List Level → Bytes
unfolding print_int
print_counters [] = []
print_counters (l ∷ ls) =
    b'('
    ∷ (print_int l.current ++ (b' ' ∷ (print_int l.target ++ (b')' ∷ b' ' ∷ print_counters ls))))

unfoldable pub print_suspender : Suspender → Bytes
unfolding print_counters
print_suspender s = print_counters (all_levels s)
