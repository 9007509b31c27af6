-- ===== src/Lib.antt =====
-- A model of the host side of Aperture, a particle-in-cell code: the particle array and its sort, the
-- indices and the grid that cells are numbered in, the communication of particles between ranks, the
-- buffers, the parameter store and the environment that runs the systems.
--
-- Base holds what the modules share: Boolean tests, lists and arrays over native numbers, machine
-- words, signed integers, and maps from names. Each other module at the root is a part of the program:
--
-- Search models utils/binary_search.h: `lower_bound` and `upper_bound` over an abstract order.
-- Vec models the comparisons, strides and products of utils/vec.hpp.
-- Index models `idx_col_major_t` and `idx_row_major_t` of utils/index.hpp: `to_linear`, `pos`,
-- `get_pos`, `inc` and `dec`, for lists of any length as extents.
-- Grid models the integer members of `Grid` in core/grid.hpp, with `find_zone` and `is_in_bound`, and
-- `get_zone_offset` of core/particles_functions.h.
-- Domain models the integer part of the constructor of `grid_t` in systems/grid_impl.hpp, which cuts the
-- grid of a rank out of the domain, and `next_power_of_two` of utils/util_functions.h. It uses Grid and Comm.
-- Domain.Setup models `setup_domain` of systems/domain_comm_impl.hpp, with the message passing library as a
-- parameter: `IsCart` of Domain.Torus has what that library documents of a periodic communicator. That the
-- library does not reorder the ranks, which the code allows it to, is a condition of its own.
-- Particles models `particles_base` of core/particles.h and core/particles.cpp, for buffers on the
-- host; its children model functions of core/particles_functions.cpp: Append models `ptc_append` and
-- `ptc_copy_from_buffer`, Rearrange models `ptc_rearrange_arrays`, and Sort models `ptc_sort_by_cell`.
-- All field arrays of the code are treated alike, so one slot is one record.
-- Comm models `ptc_copy_to_comm_buffers` of core/particles_functions.cpp, which uses Grid, Index and
-- Particles: a particle in the guard cells goes to the buffer of its zone under the cell that it has
-- on the neighbour. Comm.Route models `send_particle_array` and `send_particles_impl` of
-- systems/domain_comm_impl.hpp, which pass these buffers on between the ranks, in x, y and z, and
-- Comm.Ranks takes all ranks together, in two dimensions: `Delivers` of Comm.Loads says that the ranks stand
-- on a torus and that a message arrives as the neighbour sends it. The library may answer each of the
-- calls of an exchange differently, so that a rank may be both neighbours of another.
-- Injector models `inject_pairs` of systems/ptc_injector_host.hpp; the random generator, the criterion, the
-- counts, the momenta and the weights are parameters. It uses Grid, Index, Flags and Particles.
-- Guards models the exchange of guard cells in systems/domain_comm_impl.hpp, with `copy` and `add` of
-- core/detail/multi_array_helpers.cpp and core/domain_info.h; the message passing library is a function
-- from what is sent to what is received. It uses Grid and Index.
-- Flags models the flags and particle types of utils/util_functions.h and `stagger_t` of utils/stagger.h,
-- as words given by their bits.
-- Buffer models core/buffer.hpp and core/buffer_impl.cpp over a heap of blocks, where a pointer is the
-- number of a block.
-- Params models framework/params_store.h and framework/params_store.cpp: `get`, `add`, `read_table`
-- and the visitor that fills structs.
-- Environment models framework/environment.h, framework/environment.cpp and framework/system.h: the
-- registries, `init`, `update` and `run`. It reads its settings from Params.
--
-- Paths are those of the folder src of the repository.
--
-- Unsigned integers are natural numbers with the wrap-around written out where the code can reach
-- it; the sums of sizes that memory bounds are plain sums. The `int`s of the sort, its counts of particles
-- among them, are 32-bit patterns that are extended where a `size_t` is wanted. A loop over a counter is a recursion on
-- the rounds that are left. The inner loop of `ptc_rearrange_arrays` runs on fuel of one more than
-- the entries, since each round marks one of them; `run` runs on fuel of the updates that are left
-- and one more; `next_power_of_two` runs on 33 rounds, after which its word is zero and it would run
-- forever; the loop that fills the holes of a segment runs on fuel of two more than the last segment,
-- since a round either fills the segment, and the next one ends, or goes one segment down. Floating
-- point numbers are elements of a parameter type. Undefined behaviour that the model shows is a result of
-- its own, `none`.
--
-- Not modelled: floating point physics, field solvers, output, device code, the message passing
-- library and third-party code; the systems and data components that an environment runs are
-- parameters of it.
pub mod Base
pub mod Search
pub mod Particles
pub mod Vec
pub mod Index
pub mod Params
pub mod Environment
pub mod Flags
pub mod Injector
pub mod Grid
pub mod Buffer
pub mod Comm
pub mod Domain
pub mod Guards
