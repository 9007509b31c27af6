-- ===== src/Buffer/Contents.antt =====
-- core/buffer.hpp: `assign_host` and `host_copy_from` stay inside the buffers.
use aperture4_nick.Base.{
  ℕ, ◌+◌, ◌-◌, ◌^◌, ◌≤◌, ◌<◌, ◌≡◌, ◌≢◌, refl, ap, ◌∙◌, arith, min, true, ◌&&◌, some, write_same,
  write_other, ltb, leb, ==_refl, ==_ne, if◌then◌else◌,
}
use aperture4_nick.Buffer.{Heap, Buffer, assign_host, ptr_assign, host_copy_from, ptr_copy, clamped}

-- The count that `host_copy_from` uses is the wanted one as far as both buffers reach, if both
-- starting positions lie in their buffers and no sum of a position and a count wraps.
clamped-min :
    (size other_size num src_pos dst_pos : ℕ)
    → dst_pos ≤ size
    → src_pos ≤ other_size
    → size < 2 ^ 64
    → other_size < 2 ^ 64
    → dst_pos + num < 2 ^ 64
    → src_pos + num < 2 ^ 64
    → clamped size other_size num src_pos dst_pos
      ≡ min num (min (size - dst_pos) (other_size - src_pos))
unfolding clamped
clamped-min size other_size num src_pos dst_pos d s l m n o = ground arith

module _ {T : Type 0} where
  -- `assign_host` sets the elements from `start` to `end` that the buffer has, and no others: neither
  -- behind the end of the buffer nor in another block.
  assign_host_lem :
      (start end : ℕ) (value : T) (h : Heap T) (b : Buffer) (block : ℕ)
      → b.host_allocated ≡ true
      → b.data_h ≡ some block
      → ((a : ℕ)
          → (assign_host start end value (h, b)).blocks block a
            ≡ (if leb start a && ltb a (min end b.size) then value else h.blocks block a))
        × ((other : ℕ)
            → other ≢ block
            → (assign_host start end value (h, b)).blocks other ≡ h.blocks other)
  unfolding assign_host ptr_assign
  assign_host_lem start end value h b block host p = (
    (λ a.
        rw (host, assign_host, p)
          (ap (λ f. f a)
              (write_same h.blocks block block
                (ptr_assign (h.blocks block) (min start (min b.size end)) (min b.size end) value)
                refl)
            ∙ within a)),
    λ other ne.
        rw (host, assign_host, p)
          (write_other h.blocks block other
            (ptr_assign (h.blocks block) (min start (min b.size end)) (min b.size end) value) ne),
  )
    where
      within :
          (a : ℕ)
          → ptr_assign (h.blocks block) (min start (min b.size end)) (min b.size end) value a
            ≡ (if leb start a && ltb a (min end b.size) then value else h.blocks block a)
      within a = ground arith

  -- A copy between two different blocks, from positions in both buffers and without wrapping sums,
  -- moves as many elements as were wanted and both buffers have, and changes nothing else in the
  -- target and no other block.
  pub host_copy_from_lem :
      (other : Buffer) (num src_pos dst_pos : ℕ) (h : Heap T) (b : Buffer) (from block : ℕ)
      → b.host_allocated ≡ true
      → other.host_allocated ≡ true
      → b.data_h ≡ some block
      → other.data_h ≡ some from
      → dst_pos ≤ b.size
      → src_pos ≤ other.size
      → b.size < 2 ^ 64
      → other.size < 2 ^ 64
      → dst_pos + num < 2 ^ 64
      → src_pos + num < 2 ^ 64
      → ((a : ℕ)
          → (host_copy_from other num src_pos dst_pos (h, b)).blocks block a ≡ (
              if leb dst_pos a
                && ltb a (dst_pos + min num (min (b.size - dst_pos) (other.size - src_pos)))
              then h.blocks from (src_pos + (a - dst_pos))
              else h.blocks block a))
        × ((c : ℕ)
            → c ≢ block
            → (host_copy_from other num src_pos dst_pos (h, b)).blocks c ≡ h.blocks c)
  unfolding host_copy_from ptr_copy
  host_copy_from_lem other num src_pos dst_pos h b from block host host' p q d s l m n o =
      let count = clamped-min b.size other.size num src_pos dst_pos d s l m n o in
      (
        (λ a. rw (host, host', host_copy_from, q, p, count) (rw (==_refl block) refl)),
        λ c ne. rw (host, host', host_copy_from, q, p, count) (rw (==_ne c block ne) refl),
      )
