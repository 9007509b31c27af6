-- ===== src/Comm/Overwritten.antt =====
-- systems/domain_comm_impl.hpp, `send_particle_array` of one buffer, which the z direction uses: on the host
-- the message is received at the start of the buffer.
