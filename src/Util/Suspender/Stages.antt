-- ===== src/Util/Suspender/Stages.antt =====
-- A function made of stages with no nested calls: each call executes the next stage.
use aphros_test.Base.{
  ℕ, zero, suc, ◌+◌, ◌<◌, ◌≤◌, ◌≡◌, refl, subst, ap, ◌∙◌, ◌==◌, ◌⊎◌, inl, inr, Bool-cases, true,
  false, List, [], ◌∷◌, ◌++◌, Bytes, if◌then◌else◌, arith, out_of_fuel, Result, ok, err, ◌>>=◌,
}
use aphros_test.Base.Int.{pos, ◌+ℤ◌, +ℤ_parts, eq_of_parts}
use aphros_test.Util.Suspender.{
  Level, Suspender, enter_first, descend, new_sem, finish, destroy, next, call, pending,
}

-- `if (sem()) { ... }` for the stages from `i` on, `n` of them: the stages that are executed.
pub call_stages : ℕ → ℕ → Suspender → List ℕ × Suspender
unfolding call
call_stages i zero s = ([], s)
call_stages i (suc n) s =
    let (run, t) = call [] s in
    let (others, u) = call_stages (i + 1) n t in ((if run then i ∷ others else others), u)

-- One call of a function of `n` stages, from the constructor of its `Sem` to the destructor.
pub run_function : Bytes → ℕ → Suspender → Result (List ℕ × Suspender)
run_function name n s =
    new_sem name s >>= λ t. let (stages, u) = call_stages 0 n t in destroy u >>= λ v. ok (stages, v)

-- `do { f(); } while (Pending());`
pub drive : ℕ → Bytes → ℕ → Suspender → Result (List ℕ × Suspender)
drive zero name n s = err out_of_fuel
drive (suc fuel) name n s = run_function name n s >>= λ (stages, t).
    if pending t
    then (drive fuel name n t >>= λ (others, u). ok (stages ++ others, u))
    else ok (stages, t)

-- The counters of the function that is called, and the levels round it.
record At (s : Suspender) (c t : ℕ) (up down : List Level) : Type 0 where
  current_at : s.here.current ≡ pos c
  target_at : s.here.target ≡ pos t
  above_at : s.above ≡ up
  below_at : s.below ≡ down

pos_next : (c : ℕ) → pos c +ℤ pos 1 ≡ pos (c + 1)
pos_next c = eq_of_parts _ _ (omega (arith, +ℤ_parts (pos c) (pos 1)))

call-At :
    (s : Suspender) (c t : ℕ) (up down : List Level)
    → At s c t up down
    → ((call [] s).0 ≡ (c == t)) × At (call [] s).1 (c + 1) t up down
unfolding call next
call-At s c t up down h =
    let e = h.current_at in
    let f = h.target_at in
    let a = h.above_at in let b = h.below_at in ground (arith, e, f, a, b, pos_next c)

-- Stage `t` is executed, if it is among them.
executed : ℕ → ℕ → ℕ → List ℕ
executed c zero t = []
executed c (suc n) t = if c == t then c ∷ executed (c + 1) n t else executed (c + 1) n t

call_stages-At :
    (n : ℕ) (s : Suspender) (c t : ℕ) (up down : List Level)
    → At s c t up down
    → ((call_stages c n s).0 ≡ executed c n t) × At (call_stages c n s).1 (c + n) t up down
unfolding call_stages executed
call_stages-At zero s c t up down h = let same : c + 0 ≡ c = omega arith in (refl, rw same h)
call_stages-At (suc n) s c t up down h =
    let (run, at) = call-At s c t up down h in
    let (others, end) = call_stages-At n (call [] s).1 (c + 1) t up down at in
    let shift : c + 1 + n ≡ c + suc n = omega arith in (rw (run, others) refl, rw (← shift) end)

executed_none : (c n t : ℕ) → t < c → executed c n t ≡ []
unfolding executed
executed_none c zero t h = refl
executed_none c (suc n) t h =
    let differ : (c == t) ≡ false = ground arith in
    rw differ (executed_none (c + 1) n t (omega arith))

executed_one : (c n t : ℕ) → c ≤ t → t < c + n → executed c n t ≡ t ∷ []
unfolding executed
executed_one c zero t h k = absurd (omega (arith, h, k))
executed_one c (suc n) t h k = elim (Bool-cases (c == t)) [
  | inl e ↦
      let same : c ≡ t = ground (arith, e) in
      rw e (
        ap (λ (x : ℕ). x ∷ executed (c + 1) n t) same
        ∙ ap (λ (l : List ℕ). t ∷ l) (executed_none (c + 1) n t (omega arith)))
  | inr e ↦
      let above : c + 1 ≤ t = ground (arith, e, h) in
      rw e (executed_one (c + 1) n t above (omega arith))
]

-- The function is not running, and `t` of its stages are done: before the first call, with no
-- level of its own, and from then on with a level that waits for stage `t`.
abbrev pub Waiting : Suspender → ℕ → Type 0
Waiting s t =
    (s.above ≡ [])
    × (((t ≡ 0) × (s.below ≡ [])) ⊎ ((l : Level) × (s.below ≡ l ∷ []) × (l.target ≡ pos t)))

new_sem-At :
    (name : Bytes) (s : Suspender) (t : ℕ)
    → Waiting s t
    → (v : Suspender) × (new_sem name s ≡ ok v) × At v 0 t (s.here ∷ []) []
unfolding new_sem enter_first descend
new_sem-At name s t (up, inl (first, down)) =
    (descend name (enter_first s), ground (arith, up, down, first), ground (arith, up, down, first))
new_sem-At name s t (up, inr (l, down, goal)) =
    (descend name (enter_first s), ground (arith, up, down, goal), ground (arith, up, down, goal))

-- The level behind a call: none, or one that waits for the next stage.
abbrev pub After : ℕ → ℕ → Suspender → Type 0
After n t u =
    (u.above ≡ [])
    × (((t + 1 ≡ n) × (u.below ≡ []))
        ⊎ ((t + 1 < n) × ((l : Level) × (u.below ≡ l ∷ []) × (l.target ≡ pos (t + 1)))))

destroy-After :
    (u : Suspender) (n t : ℕ) (a : Level)
    → At u n t (a ∷ []) []
    → t < n
    → (v : Suspender) × (destroy u ≡ ok v) × After n t v
unfolding destroy finish
destroy-After u n t a h lt =
    let e = h.current_at in
    let f = h.target_at in
    let up = h.above_at in
    let down = h.below_at in
    let left : destroy u ≡ ok (record u { above = []; here = a; below = finish u.here }) =
      rw (up, down) refl in
    (
      record u { above = []; here = a; below = finish u.here },
      left,
      elim (Bool-cases (n == t + 1)) [
        | inl q ↦ (refl, inl (ground (arith, q), ground (arith, e, f, q, pos_next t)))
        | inr q ↦ (
          refl,
          inr (
            ground (arith, q, lt),
            (
              record u.here { target = u.here.target +ℤ pos 1 },
              ground (arith, e, f, q, lt, pos_next t),
              rw f (pos_next t),
            ),
          ),
        )
      ],
    )

-- One call executes stage `t` alone.
run_function-After :
    (name : Bytes) (n t : ℕ) (s : Suspender)
    → Waiting s t
    → t < n
    → (u : Suspender) × (run_function name n s ≡ ok (t ∷ [], u)) × After n t u
unfolding run_function
run_function-After name n t s w lt =
    let (v, enter, at) = new_sem-At name s t w in
    let (run, end) = call_stages-At n v 0 t (s.here ∷ []) [] at in
    let one = executed_one 0 n t (omega arith) (omega (arith, lt)) in
    let zero_n : 0 + n ≡ n = omega arith in
    let (u, leave, after) =
      destroy-After (call_stages 0 n v).1 n t s.here
        (subst (λ (x : ℕ). At (call_stages 0 n v).1 x t (s.here ∷ []) []) zero_n end) lt in
    (u, rw (enter, leave, run, one) refl, after)

-- The stages from `t` on.
abbrev pub stages_from : ℕ → ℕ → List ℕ
stages_from t zero = []
stages_from t (suc k) = t ∷ stages_from (t + 1) k

pending_idle : (u : Suspender) → u.above ≡ [] → u.below ≡ [] → pending u ≡ false
unfolding pending
pending_idle u up down = ground (arith, up, down)

pending_busy : (u : Suspender) (l : Level) → u.above ≡ [] → u.below ≡ l ∷ [] → pending u ≡ true
unfolding pending
pending_busy u l up down = ground (arith, up, down)

drive_last :
    (name : Bytes) (n fuel : ℕ) (s u : Suspender) (stages : List ℕ)
    → run_function name n s ≡ ok (stages, u)
    → pending u ≡ false
    → drive (suc fuel) name n s ≡ ok (stages, u)
unfolding drive
drive_last name n fuel s u stages h p = rw (h, p) refl

drive_more :
    (name : Bytes) (n fuel : ℕ) (s u v : Suspender) (stages others : List ℕ)
    → run_function name n s ≡ ok (stages, u)
    → pending u ≡ true
    → drive fuel name n u ≡ ok (others, v)
    → drive (suc fuel) name n s ≡ ok (stages ++ others, v)
unfolding drive
drive_more name n fuel s u v stages others h p k = rw (h, p, k) refl

drive_from :
    (name : Bytes) (n k t fuel : ℕ) (s : Suspender)
    → Waiting s t
    → t + suc k ≡ n
    → suc k ≤ fuel
    → (u : Suspender) × (drive fuel name n s ≡ ok (stages_from t (suc k), u)) × (pending u ≡ false)
drive_from name n k t zero s w e f = absurd (omega (arith, f))
drive_from name n zero t (suc fuel) s w e f =
    let (u, run, (up, rest)) = run_function-After name n t s w (omega (arith, e)) in
    elim rest [
      | inl (last, down) ↦
          let idle = pending_idle u up down in
          (u, drive_last name n fuel s u (t ∷ []) run idle, idle)
      | inr (more, _) ↦ absurd (omega (arith, more, e))
    ]
drive_from name n (suc k) t (suc fuel) s w e f =
    let (u, run, (up, rest)) = run_function-After name n t s w (omega (arith, e)) in
    elim rest [
      | inl (last, down) ↦ absurd (omega (arith, last, e))
      | inr (more, (l, down, goal)) ↦
          let busy = pending_busy u l up down in
          let (v, others, idle) =
            drive_from name n k (t + 1) fuel u (up, inr (l, down, goal)) (omega (arith, e))
              (omega (arith, f)) in
          (
            v,
            drive_more name n fuel s u v (t ∷ []) (stages_from (t + 1) (suc k)) run busy others,
            idle,
          )
    ]

-- A function of `n` stages with no nested calls, at least one, which is called until nothing is
-- pending, executes each stage once, in their order, and nothing is pending afterwards; `n` calls
-- are enough. It may start wherever no level is there.
pub drive_lem :
    (name : Bytes) (n fuel : ℕ) (s : Suspender)
    → s.above ≡ []
    → s.below ≡ []
    → 0 < n
    → n ≤ fuel
    → (u : Suspender) × (drive fuel name n s ≡ ok (stages_from 0 n, u)) × (pending u ≡ false)
drive_lem name zero fuel s up down h f = absurd (omega (arith, h))
drive_lem name (suc k) fuel s up down h f =
    drive_from name (suc k) k 0 fuel s (up, inl (refl, down)) (omega arith) f
