-- ===== src/Environment.antt =====
-- framework/environment.h, framework/environment.cpp, framework/system.h: the registries of systems and
-- data components, and the loop that updates the systems. What a system or a data component does
-- is the program that is built on the environment: the interface `Components`.
pub mod Registration
pub mod Loop
mod Tests
use Prim.Native.String.{String}
use aperture4_nick.Base.{
  ℕ, zero, suc, ◌+◌, ◌-◌, ◌%◌, ◌^◌, Bool, true, false, not, leb, ltb, ◌==◌, if◌then◌else◌, List, [],
  ◌∷◌, ◌++◌, Option, none, some,
}
use aperture4_nick.Base.Maps.{find, insert}
use aperture4_nick.Params.{is_int, is_double, Store, get}
use aperture4_nick.Params.Fields.{visit_int}

-- The objects behind the two registries. `World` is all state that they reach but the registries and
-- the pause flags. `R` is `double`.
pub record Components : Type 1 where
  pub System : Type 0
  pub Data : Type 0
  pub World : Type 0
  pub R : Type 0
  pub plus : R → R → R
  pub zero_time : R
  pub default_dt : R
  -- `register_data_components`: what a new system registers
  pub data_components : System → List (String × Data)
  pub init_system : System → World → World
  pub init_data : Data → World → World
  -- `update(dt, step)`
  pub update_system : System → R → ℕ → World × (String → Bool) → World × (String → Bool)

-- `LogLevel::info`
abbrev pub info_level : ℕ
info_level = 0

-- `m_paused` of each system, by its name
abbrev pub Flags : Type 0
Flags = String → Bool

-- `pause`, `unpause` and `is_paused`
abbrev pub set_paused : String → Bool → Flags → Flags
set_paused name b flags other = elim (find ((name, b) ∷ []) other) [
  | none ↦ flags other
  | some paused ↦ paused
]

-- A registry: the map and the order of registration.
pub record Registry (A : Type 0) : Type 0 where
  pub entries : List (String × A)
  pub order : List String

module _ {A : Type 0} where
  abbrev pub empty_registry : Registry A
  empty_registry = record { entries = []; order = [] }

  -- Both `register_…` methods end so.
  unfoldable pub enroll : String → A → Registry A → Registry A
  unfolding insert
  enroll name x r = record { entries = insert name x r.entries; order = r.order ++ name ∷ [] }

  -- `register_data`: the component there is under the name, or the new one.
  unfoldable pub register_data : String → A → Registry A → A × Registry A
  unfolding enroll
  register_data name x r = elim (find r.entries name) [
    | none ↦ (x, enroll name x r)
    | some old ↦ (old, r)
  ]

  unfoldable pub register_all : List (String × A) → Registry A → Registry A
  unfolding register_data
  register_all [] r = r
  register_all ((name, x) ∷ rest) r = let (_, r') = register_data name x r in register_all rest r'

-- What a lookup ends in: `get_data` throws, the others log and give a null pointer.
pub data Lookup (A : Type 0) : Type 0 where
  pointer : A → Lookup A
  null : Lookup A
  not_found : String → Lookup A

module _ {A : Type 0} where
  unfoldable pub get_data : String → Registry A → Lookup A
  get_data name r = elim (find r.entries name) [ none ↦ not_found name | some x ↦ pointer x ]

  unfoldable pub get_data_optional : String → Registry A → Lookup A
  get_data_optional name r = elim (find r.entries name) [ none ↦ null | some x ↦ pointer x ]

  unfoldable pub get_system : String → Registry A → Lookup A
  get_system name r = elim (find r.entries name) [ none ↦ null | some x ↦ pointer x ]

module _ (C : Components) where
  pub record Env : Type 0 where
    pub systems : Registry C.System
    pub data_map : Registry C.Data
    pub params : Store C.R
    pub paused : Flags
    pub world : C.World
    pub is_dry_run : Bool
    pub dt : C.R
    pub time : C.R
    pub step : ℕ
    pub max_steps : ℕ
    pub perf_interval : ℕ

  -- `register_system`; `make` is the construction of the object, which happens only for a new name.
  unfoldable pub register_system : String → (Unit {0} → C.System) → Env → C.System × Env
  unfolding enroll register_all
  register_system name make env = elim (find env.systems.entries name) [
    | some old ↦ (old, env)
    | none ↦
        let s : C.System = make tt in
        (
          s,
          record env {
            data_map = register_all (C.data_components s) env.data_map;
            systems = enroll name s env.systems;
          },
        )
  ]

  -- The loops of `init` over the two orders; `none` is a null dereference, at a name that the map
  -- does not have.
  unfoldable pub init_systems : Registry C.System → List String → C.World → Option C.World
  init_systems r [] w = some w
  init_systems r (name ∷ rest) w = elim (find r.entries name) [
    | none ↦ none
    | some s ↦ init_systems r rest (C.init_system s w)
  ]

  unfoldable pub init_all_data : Registry C.Data → List String → C.World → Option C.World
  init_all_data r [] w = some w
  init_all_data r (name ∷ rest) w = elim (find r.entries name) [
    | none ↦ none
    | some d ↦ init_all_data r rest (C.init_data d w)
  ]

  -- `init`. The log level and the table of timings serve the log only; the level's parameter is read.
  unfoldable pub init : Env → Option Env
  unfolding visit_int get init_systems init_all_data
  init env =
      let (_, s₀) = visit_int "log_level" info_level env.params in
      let (steps, s₁) = get is_int "max_steps" 1 s₀ in
      let (dt, s₂) = get is_double "dt" C.default_dt s₁ in
      let (interval, s₃) = get is_int "perf_interval" 10 s₂ in
      elim (init_systems env.systems env.systems.order env.world) [
        | none ↦ none
        | some w ↦ elim (init_all_data env.data_map env.data_map.order w) [
          | none ↦ none
          | some w' ↦ some (record env {
            params = s₃;
            world = w';
            step = 0;
            time = C.zero_time;
            max_steps = steps % 2 ^ 32;
            dt = dt;
            perf_interval = interval % 2 ^ 32;
          })
        ]
      ]

  -- The loop of `update`, on what the systems can change.
  unfoldable pub update_systems :
      Registry C.System → C.R → ℕ → List String → C.World × Flags → Option (C.World × Flags)
  update_systems r dt step [] s = some s
  update_systems r dt step (name ∷ rest) s = elim (find r.entries name) [
    | none ↦ none
    | some system ↦
        if s.1 name
        then update_systems r dt step rest s
        else update_systems r dt step rest (C.update_system system dt step s)
  ]

  -- `update`; `none` is a null dereference, or the division by a `perf_interval` of zero.
  unfoldable pub update : Env → Option Env
  unfolding update_systems
  update env =
      if env.perf_interval == 0
      then none
      else elim (update_systems env.systems env.dt env.step env.systems.order
          (env.world, env.paused)) [
            | none ↦ none
            | some s ↦ some (record env {
              world = s.0;
              paused = s.1;
              time = C.plus env.time env.dt;
              step = (env.step + 1) % 2 ^ 32;
            })
          ]

  -- The loop of `run`, on fuel, for `n` below `INT_MAX`.
  unfoldable pub run_loop : ℕ → ℕ → Env → Option Env
  unfolding update
  run_loop zero n env = none
  run_loop (suc fuel) n env =
      if leb n env.max_steps
      then elim (update env) [ none ↦ none | some env' ↦ run_loop fuel (n + 1) env' ]
      else some env

  unfoldable pub run : ℕ → Env → Option Env
  unfolding run_loop
  run fuel env = if env.is_dry_run then some env else run_loop fuel env.step env
