-- ===== src/Environment/Tests.antt =====
-- An environment with two systems that count their updates, one of them paused.
use Prim.Native.String.{String}
use aperture4_nick.Base.{ℕ, ◌+◌, ◌≡◌, ◌≢◌, refl, arith, true, false, List, [], ◌∷◌, some}
use text.Mathlib.Text.{◌==◌ as same}
use aperture4_nick.Base.Maps.{find}
use aperture4_nick.Environment.{
  Components, Registry, Flags, Env, register_data, empty_registry, update, run,
}
use aperture4_nick.Environment.Registration.{IsWellFormed, register_data-IsWellFormed}
use aperture4_nick.Environment.Loop.{Turns, after, update_lem, updates, run_lem}

abbrev counting : Components
counting = record {
  System = ℕ;
  Data = ℕ;
  World = ℕ;
  R = ℕ;
  plus = ◌+◌;
  zero_time = 0;
  default_dt = 1;
  data_components = λ s. [];
  init_system = λ s w. w;
  init_data = λ d w. w;
  update_system = λ s dt step w. (w.0 + s, w.1);
}

abbrev two_systems : Registry ℕ
two_systems = record {
  entries = ("mover", 1) ∷ ("solver", 10) ∷ [];
  order = "mover" ∷ "solver" ∷ [];
}

two_systems-IsWellFormed : IsWellFormed two_systems
unfolding find
two_systems-IsWellFormed = record { in_order = refl; once = (refl, (refl, tt)) }

register_data-IsWellFormed_example : IsWellFormed (register_data "B" 5 two_systems).1
register_data-IsWellFormed_example =
    register_data-IsWellFormed "B" 5 two_systems two_systems-IsWellFormed

abbrev interval : ℕ
interval = 10

abbrev env : Env counting
env = record {
  systems = two_systems;
  data_map = empty_registry;
  params = [];
  paused = λ name. same name "solver";
  world = 0;
  is_dry_run = false;
  dt = 1;
  time = 0;
  step = 0;
  max_steps = 3;
  perf_interval = interval;
}

not_zero : interval ≢ 0
not_zero h = omega arith

update_lem_example :
    (s' : ℕ × Flags) × (ran : List String) × (update counting env ≡ some (after counting env s'))
    × Turns counting two_systems 1 0 ("mover" ∷ "solver" ∷ []) (0, env.paused) ran s'
update_lem_example = update_lem counting env two_systems-IsWellFormed not_zero

run_lem_example :
    (false ≡ false
      → (env' : Env counting) × (run counting 5 env ≡ some env')
        × (updates counting 4 env ≡ some env')
        × (env'.step ≡ 4))
    × (false ≡ true → (fuel : ℕ) → run counting fuel env ≡ some env)
run_lem_example = run_lem counting env (omega arith) (omega arith) two_systems-IsWellFormed not_zero
