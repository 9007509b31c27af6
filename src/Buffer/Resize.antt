-- ===== src/Buffer/Resize.antt =====
-- core/buffer.hpp: `resize` frees what the buffer had and allocates what its memory type wants.
use mathlib.Core.Option.{some-injective}
use mathlib.Core.Bool.{true≢false}
use aperture4_nick.Base.{
  ℕ, ◌+◌, ◌<◌, ◌≡◌, refl, sym, ap, ◌∙◌, arith, Bool, true, false, ◌||◌, some, inl, inr, Bool-cases,
  write_same, write_other, ltb, if◌then◌else◌, lt-cases, ltb-lt, ltb-ge,
}
use aperture4_nick.Buffer.{
  MemType, host_only, host_device, device_managed, device_only, Heap, Buffer, on_host, on_device,
  is_managed, allocate, alloc_host, alloc_device, alloc_mem, free_mem, resize,
}
use aperture4_nick.Buffer.Ownership.{
  HasBlock, Owns, same_block, free_mem-Freed, free_mem-none, HasBlock-lt,
}

not_both : (gpu : Bool) (type : MemType) → on_host type ≡ true → is_managed type ≡ false
not_both gpu host_only e = refl
not_both gpu host_device e = refl
not_both gpu device_managed e = sym e
not_both gpu device_only e = refl

no_device : (type : MemType) → on_device false type ≡ false
no_device host_only = refl
no_device host_device = refl
no_device device_managed = refl
no_device device_only = refl

a_device : (gpu : Bool) (type : MemType) → on_device gpu type ≡ true → gpu ≡ true
a_device gpu type e = elim (Bool-cases gpu) [
  | inl g ↦ g
  | inr g ↦ absurd (true≢false (sym e ∙ ap (λ x. on_device x type) g ∙ no_device type))
]

abbrev with_host : ℕ → Buffer → Buffer
with_host block b = record b { data_h = some block; host_allocated = true }

abbrev with_device : ℕ → Buffer → Buffer
with_device block b = record b {
  data_d = some block;
  data_h = if is_managed b.mem_type then some block else b.data_h;
  dev_allocated = true;
}

module _ {T : Type 0} (gpu : Bool) where
  -- what `alloc_mem` has done, for a buffer that has no memory
  pub record Allocated (size : ℕ) (h : Heap T) (b : Buffer) (h' : Heap T) (b' : Buffer)
      : Type 0 where
    pub owns : Owns gpu h' b'
    pub size_set : b'.size ≡ size
    pub host_set : b'.host_allocated ≡ on_host b.mem_type
    pub dev_set : b'.dev_allocated ≡ on_device gpu b.mem_type
    pub kept : (block : ℕ) → block < h.next → h'.live block ≡ h.live block

  host_part :
      (h : Heap T) (b : Buffer) (on : Bool)
      → on_host b.mem_type ≡ on
      → alloc_host (h, b) ≡ (if on then (allocate h, with_host h.next b) else (h, b))
  unfolding alloc_host
  host_part h b on e = ap (λ x. if x then (allocate h, with_host h.next b) else (h, b)) e

  device_part :
      (h : Heap T) (b : Buffer) (on : Bool)
      → on_device gpu b.mem_type ≡ on
      → alloc_device gpu (h, b) ≡ (if on then (allocate h, with_device h.next b) else (h, b))
  unfolding alloc_device
  device_part h b on e = ap (λ x. if x then (allocate h, with_device h.next b) else (h, b)) e

  alloc_mem-parts :
      (size : ℕ) (h h₁ h₂ : Heap T) (b b₁ b₂ : Buffer)
      → alloc_host (h, b) ≡ (h₁, b₁)
      → alloc_device gpu (h₁, b₁) ≡ (h₂, b₂)
      → alloc_mem gpu size (h, b) ≡ (h₂, record b₂ { size = size })
  unfolding alloc_mem
  alloc_mem-parts size h h₁ h₂ b b₁ b₂ e f =
      ap (λ s. (s.0, record s.1 { size = size })) (ap (alloc_device gpu) e ∙ f)

  live_at : (h : Heap T) (block : ℕ) → block < h.next → (allocate h).live block ≡ h.live block
  live_at h block l = write_other h.live h.next block true (omega arith)

  here : (h : Heap T) → (allocate h).live h.next ≡ true
  here h = write_same h.live h.next h.next true refl

  both_parts :
      (size : ℕ) (h : Heap T) (b : Buffer)
      → on_host b.mem_type ≡ true
      → on_device gpu b.mem_type ≡ true
      → Allocated size h b
          (allocate (allocate h))
          (record (with_device (h.next + 1) (with_host h.next b)) { size = size })
  both_parts size h b host dev =
      let apart = not_both gpu b.mem_type host in
      let pointer : (with_device (h.next + 1) (with_host h.next b)).data_h ≡ some h.next =
        rw apart refl in
      record {
        owns = record {
          host_live = λ e.
              (h.next, pointer, live_at (allocate h) h.next (omega arith) ∙ here h, omega arith);
          dev_live = λ e. (h.next + 1, refl, here (allocate h), omega arith);
          apart = λ x y e f p q same.
              let i = same_block (some h.next) h.next x refl (sym pointer ∙ p) in
              let j = same_block (some (h.next + 1)) (h.next + 1) y refl q in omega arith;
          no_device = λ g. absurd (true≢false (sym (a_device gpu b.mem_type dev) ∙ g));
        };
        size_set = refl;
        host_set = sym host;
        dev_set = sym dev;
        kept = λ block l. live_at (allocate h) block (omega arith) ∙ live_at h block l;
      }

  alloc_mem-Allocated :
      (size : ℕ) (h : Heap T) (b : Buffer)
      → b.host_allocated ≡ false
      → b.dev_allocated ≡ false
      → (h' : Heap T) × (b' : Buffer) × (alloc_mem gpu size (h, b) ≡ (h', b'))
        × Allocated size h b h' b'
  alloc_mem-Allocated size h b nh nd = elim (Bool-cases (on_host b.mem_type)) [
    | inl host ↦ elim (Bool-cases (on_device gpu b.mem_type)) [
      | inl dev ↦ (
        allocate (allocate h),
        record (with_device (h.next + 1) (with_host h.next b)) { size = size },
        alloc_mem-parts size h (allocate h) (allocate (allocate h)) b (with_host h.next b)
            (with_device (h.next + 1) (with_host h.next b)) (host_part h b true host)
            (device_part (allocate h) (with_host h.next b) true dev),
        both_parts size h b host dev,
      )
      | inr dev ↦ (
        allocate h,
        record (with_host h.next b) { size = size },
        alloc_mem-parts size h (allocate h) (allocate h) b (with_host h.next b) (with_host h.next b)
            (host_part h b true host) (device_part (allocate h) (with_host h.next b) false dev),
        record {
          owns = record {
            host_live = λ e. (h.next, refl, here h, omega arith);
            dev_live = λ e. absurd (ground arith);
            apart = λ x y e f. absurd (ground arith);
            no_device = λ g. nd;
          };
          size_set = refl;
          host_set = sym host;
          dev_set = nd ∙ sym dev;
          kept = λ block l. live_at h block l;
        },
      )
    ]
    | inr host ↦ elim (Bool-cases (on_device gpu b.mem_type)) [
      | inl dev ↦ (
        allocate h,
        record (with_device h.next b) { size = size },
        alloc_mem-parts size h h (allocate h) b b (with_device h.next b) (host_part h b false host)
            (device_part h b true dev),
        record {
          owns = record {
            host_live = λ e. absurd (ground arith);
            dev_live = λ e. (h.next, refl, here h, omega arith);
            apart = λ x y e. absurd (ground arith);
            no_device = λ g. absurd (true≢false (sym (a_device gpu b.mem_type dev) ∙ g));
          };
          size_set = refl;
          host_set = nh ∙ sym host;
          dev_set = sym dev;
          kept = λ block l. live_at h block l;
        },
      )
      | inr dev ↦ (
        h,
        record b { size = size },
        alloc_mem-parts size h h h b b b (host_part h b false host) (device_part h b false dev),
        record {
          owns = record {
            host_live = λ e. absurd (ground arith);
            dev_live = λ e. absurd (ground arith);
            apart = λ x y e. absurd (ground arith);
            no_device = λ g. nd;
          };
          size_set = refl;
          host_set = nh ∙ sym host;
          dev_set = nd ∙ sym dev;
          kept = λ block l. refl;
        },
      )
    ]
  ]

  resize-freed :
      (size : ℕ) (h : Heap T) (b : Buffer) (r : Heap T × Buffer)
      → free_mem gpu (h, b) ≡ some r
      → resize gpu size (h, b) ≡ some (if ltb 0 size then alloc_mem gpu size r else r)
  unfolding resize
  resize-freed size h b r e = elim (Bool-cases (b.host_allocated || b.dev_allocated)) [
    | inl has ↦ rw (has, resize) (rw e refl)
    | inr nothing ↦
        let same = sym (free_mem-none gpu h b (ground arith) (ground arith)) ∙ e in
        rw (nothing, resize)
          (ap (λ x. some (if ltb 0 size then alloc_mem gpu size x else x))
            (some-injective (h, b) r same))
  ]

  -- `resize` never frees a block twice. Afterwards every block that the buffer had is free, every other
  -- block is as before, and the buffer owns what it has; for a positive size it has this size, memory
  -- on the host if its type wants that, and memory on the device if there is one and its type wants that.
  pub resize-Owns :
      (size : ℕ) (h : Heap T) (b : Buffer)
      → Owns gpu h b
      → (h' : Heap T) × (b' : Buffer) × (resize gpu size (h, b) ≡ some (h', b'))
        × Owns gpu h' b'
        × ((block : ℕ) → HasBlock b block → h'.live block ≡ false)
        × ((block : ℕ) → block < h.next → ¬ HasBlock b block → h'.live block ≡ h.live block)
        × (0 < size
            → (b'.size ≡ size)
              × (b'.host_allocated ≡ on_host b.mem_type)
              × (b'.dev_allocated ≡ on_device gpu b.mem_type))
  resize-Owns size h b v =
      let (h₁, b₁, freed, f) = free_mem-Freed gpu h b v in
      let (h₂, b₂, allocated, a) = alloc_mem-Allocated size h₁ b₁ f.no_host f.no_dev in
      elim (lt-cases 0 size) [
        | inl positive ↦ (
          h₂,
          b₂,
          resize-freed size h b (h₁, b₁) freed
              ∙ ap (λ x. some (if x then alloc_mem gpu size (h₁, b₁) else (h₁, b₁)))
                  (ltb-lt 0 size positive)
              ∙ ap some allocated,
          a.owns,
          λ block o.
              a.kept block (omega (arith, f.next, HasBlock-lt gpu h b block v o)) ∙ f.gone block o,
          λ block l o. a.kept block (omega (arith, f.next)) ∙ f.kept block o,
          λ z. (a.size_set, a.host_set ∙ ap on_host f.type, a.dev_set ∙ ap (on_device gpu) f.type),
        )
        | inr none_left ↦ (
          h₁,
          b₁,
          resize-freed size h b (h₁, b₁) freed
              ∙ ap (λ x. some (if x then alloc_mem gpu size (h₁, b₁) else (h₁, b₁)))
                  (ltb-ge 0 size none_left),
          record {
            host_live = λ e. absurd (true≢false (sym e ∙ f.no_host));
            dev_live = λ e. absurd (true≢false (sym e ∙ f.no_dev));
            apart = λ x y e. absurd (true≢false (sym e ∙ f.no_host));
            no_device = λ g. f.no_dev;
          },
          f.gone,
          λ block l o. f.kept block o,
          λ z. absurd (omega arith),
        )
      ]
