-- ===== src/Environment/Loop.antt =====
-- framework/environment.cpp: `update` gives every system that is not paused its turn, in the order of
-- registration, and `run` repeats it.
use Prim.Native.String.{String}
use native.Mathlib.Nat.{mod-eq_of_lt}
use aperture4_nick.Base.{
  ℕ, zero, suc, ◌+◌, ◌-◌, ◌%◌, ◌^◌, ◌≤◌, ◌<◌, ◌≡◌, ◌≢◌, refl, ap, ◌∙◌, arith, Bool, true, false,
  List, [], ◌∷◌, Option, none, some, Bool-cases, inl, inr, if◌then◌else◌, leb-le, leb-gt, ==_ne,
}
use text.Mathlib.Text.{◌==◌ as same}
use aperture4_nick.Base.Maps.{find, same_refl}
use aperture4_nick.Environment.{
  Components, Registry, Flags, Env, update_systems, update, run_loop, run,
}
use aperture4_nick.Environment.Registration.{keys, IsWellFormed}

module _ {A : Type 0} where
  -- Every name of the list is in the map.
  abbrev pub AllFound : List (String × A) → List String → Type 0
  AllFound m [] = Unit
  AllFound m (name ∷ rest) = ((x : A) × (find m name ≡ some x)) × AllFound m rest

  keys-found :
      (rest m : List (String × A))
      → ((name : String) (x : A) → find rest name ≡ some x → (y : A) × (find m name ≡ some y))
      → AllFound m (keys rest)
  unfolding find
  keys-found [] m sub = tt
  keys-found ((name, x) ∷ rest) m sub = (
    sub name x (rw (same_refl name) refl),
    keys-found rest m (λ other y h. elim (Bool-cases (same name other)) [
      | inl e ↦ sub other x (rw e refl)
      | inr e ↦ sub other y (rw e h)
    ]),
  )

  order-AllFound : (r : Registry A) → IsWellFormed r → AllFound r.entries r.order
  order-AllFound r v = rw v.in_order (keys-found r.entries r.entries (λ name x h. (x, h)))

module _ (C : Components) where
  -- What happens to the world and the pause flags while the names of an order get their turns: a system
  -- that is paused when its turn comes is passed over, every other one is updated.
  pub data Turns (r : Registry C.System) (dt : C.R) (step : ℕ)
      : List String → C.World × Flags → List String → C.World × Flags → Type 0 where
    finish : (s : C.World × Flags) → Turns r dt step [] s [] s
    pass :
        (name : String) (rest ran : List String) (s s' : C.World × Flags)
        → s.1 name ≡ true
        → Turns r dt step rest s ran s'
        → Turns r dt step (name ∷ rest) s ran s'
    turn :
        (name : String) (system : C.System) (rest ran : List String) (s s' : C.World × Flags)
        → find r.entries name ≡ some system
        → s.1 name ≡ false
        → Turns r dt step rest (C.update_system system dt step s) ran s'
        → Turns r dt step (name ∷ rest) s (name ∷ ran) s'

  update_systems-Turns :
      (r : Registry C.System) (dt : C.R) (step : ℕ) (order : List String)
      → AllFound r.entries order
      → (s : C.World × Flags)
      → (s' : C.World × Flags) × (ran : List String) × (update_systems C r dt step order s
          ≡ some s')
        × Turns r dt step order s ran s'
  unfolding update_systems
  update_systems-Turns r dt step [] all s = (s, [], refl, finish s)
  update_systems-Turns r dt step (name ∷ rest) all s =
      let (system, f) = all.0 in
      elim (Bool-cases (s.1 name)) [
        | inl e ↦
            let (s', ran, eq, t) = update_systems-Turns r dt step rest all.1 s in
            (s', ran, rw (f, update_systems) (rw e eq), pass name rest ran s s' e t)
        | inr e ↦
            let (s', ran, eq, t) =
              update_systems-Turns r dt step rest all.1 (C.update_system system dt step s) in
            (s', name ∷ ran, rw (f, update_systems) (rw e eq), turn name system rest ran s s' f e t)
      ]

  -- the environment after an update that left `s`
  abbrev pub after : Env C → C.World × Flags → Env C
  after env s = record env {
    world = s.0;
    paused = s.1;
    time = C.plus env.time env.dt;
    step = (env.step + 1) % 2 ^ 32;
  }

  -- When the registry of systems is well-formed and `perf_interval` is not zero, `update` returns: each
  -- system that is not paused at its turn is updated with `dt` and `step`, in the order of
  -- registration; then the time and the step advance, and nothing else of the environment changes.
  pub update_lem :
      (env : Env C)
      → IsWellFormed env.systems
      → env.perf_interval ≢ 0
      → (s' : C.World × Flags) × (ran : List String) × (update C env ≡ some (after env s'))
        × Turns env.systems env.dt env.step env.systems.order (env.world, env.paused) ran s'
  unfolding update
  update_lem env v ne =
      let (s', ran, eq, t) =
        update_systems-Turns env.systems env.dt env.step env.systems.order
          (order-AllFound env.systems v) (env.world, env.paused) in
      (s', ran, rw (==_ne env.perf_interval 0 ne, update) (rw eq refl), t)

  -- `update`, `n` times
  abbrev pub updates : ℕ → Env C → Option (Env C)
  updates zero env = some env
  updates (suc n) env = elim (update C env) [ none ↦ none | some env' ↦ updates n env' ]

  run_loop-updates :
      (k n : ℕ) (env : Env C)
      → n + k ≡ env.max_steps + 1
      → env.step ≡ n
      → env.max_steps + 1 < 2 ^ 31
      → IsWellFormed env.systems
      → env.perf_interval ≢ 0
      → (env' : Env C) × (run_loop C (suc k) n env ≡ some env')
        × (updates k env ≡ some env')
        × (env'.step ≡ env.max_steps + 1)
  unfolding run_loop
  run_loop-updates zero n env e step small v ne =
      (env, rw (leb-gt n env.max_steps (omega arith)) refl, refl, omega arith)
  run_loop-updates (suc k) n env e step small v ne =
      let (s', ran, eq, t) = update_lem env v ne in
      let next : (env.step + 1) % 2 ^ 32 ≡ n + 1 =
        rw step (mod-eq_of_lt {n = n + 1} {m = 2 ^ 32} (omega arith)) in
      let (env', loops, times, ends) =
        run_loop-updates k (n + 1) (after env s') (omega arith) next small v ne in
      (
        env',
        rw (leb-le n env.max_steps (omega arith), run_loop) (rw (eq, run_loop) loops),
        rw (eq, updates) times,
        ends,
      )

  run-by_flag :
      (fuel : ℕ) (env : Env C) (b : Bool)
      → env.is_dry_run ≡ b
      → run C fuel env ≡ (if b then some env else run_loop C fuel env.step env)
  unfolding run
  run-by_flag fuel env b e =
      ap (λ (d : Bool). if d then some env else run_loop C fuel env.step env) e

  -- A run that is not dry performs `max_steps - step + 1` updates and returns with `step` at
  -- `max_steps + 1`, on fuel of that many rounds and one more, if `step` is at most `max_steps`,
  -- `max_steps + 1` fits an `int`, `perf_interval` is not zero and the registry of systems is
  -- well-formed; a dry run changes nothing.
  pub run_lem :
      (env : Env C)
      → env.step ≤ env.max_steps
      → env.max_steps + 1 < 2 ^ 31
      → IsWellFormed env.systems
      → env.perf_interval ≢ 0
      → (env.is_dry_run ≡ false
          → (env' : Env C) × (run C (env.max_steps - env.step + 2) env ≡ some env')
            × (updates (env.max_steps - env.step + 1) env ≡ some env')
            × (env'.step ≡ env.max_steps + 1))
        × (env.is_dry_run ≡ true → (fuel : ℕ) → run C fuel env ≡ some env)
  run_lem env le small v ne = (
    λ wet.
        let count : ℕ = env.max_steps - env.step + 1 in
        let e : env.max_steps - env.step + 2 ≡ suc count = omega arith in
        let (env', loops, times, ends) =
          run_loop-updates count env.step env (omega arith) refl small v ne in
        (
          env',
          run-by_flag (env.max_steps - env.step + 2) env false wet
              ∙ ap (λ (fuel : ℕ). run_loop C fuel env.step env) e
              ∙ loops,
          times,
          ends,
        ),
    λ dry fuel. run-by_flag fuel env true dry,
  )
