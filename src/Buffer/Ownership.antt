-- ===== src/Buffer/Ownership.antt =====
-- core/buffer.hpp: a buffer frees what it has allocated, once, and `resize` leaves no block behind.
use aperture4_nick.Base.{
  ℕ, ◌<◌, ◌≡◌, ◌≢◌, refl, sym, ap, ◌∙◌, arith, Bool, true, false, Option, none, some, inl, inr, ◌⊎◌,
  Bool-cases, write, write_other,
}
use aperture4_nick.Buffer.{Heap, Buffer, free_host, free_device, free_mem}

-- The buffer has allocated the block, on the host or on the device.
abbrev pub HasBlock : Buffer → ℕ → Type 0
HasBlock b block =
    ((b.host_allocated ≡ true) × (b.data_h ≡ some block))
    ⊎ ((b.dev_allocated ≡ true) × (b.data_d ≡ some block))

pub same_block : (pointer : Option ℕ) (x y : ℕ) → pointer ≡ some x → pointer ≡ some y → x ≡ y
same_block pointer x y p q = ground arith

module _ {T : Type 0} (gpu : Bool) where
  -- A buffer and the heap: what it has allocated is live, and its two blocks differ.
  pub record Owns (h : Heap T) (b : Buffer) : Type 0 where
    pub host_live :
        b.host_allocated ≡ true
        → (block : ℕ) × (b.data_h ≡ some block) × (h.live block ≡ true) × (block < h.next)
    pub dev_live :
        b.dev_allocated ≡ true
        → (block : ℕ) × (b.data_d ≡ some block) × (h.live block ≡ true) × (block < h.next)
    pub apart :
        (x y : ℕ)
        → b.host_allocated ≡ true
        → b.dev_allocated ≡ true
        → b.data_h ≡ some x
        → b.data_d ≡ some y
        → x ≢ y
    pub no_device : gpu ≡ false → b.dev_allocated ≡ false

  -- what `free_mem` has done
  pub record Freed (h : Heap T) (b : Buffer) (h' : Heap T) (b' : Buffer) : Type 0 where
    pub no_host : b'.host_allocated ≡ false
    pub no_dev : b'.dev_allocated ≡ false
    pub type : b'.mem_type ≡ b.mem_type
    pub next : h'.next ≡ h.next
    pub gone : (block : ℕ) → HasBlock b block → h'.live block ≡ false
    pub kept : (block : ℕ) → ¬ HasBlock b block → h'.live block ≡ h.live block

  device_there : (h : Heap T) (b : Buffer) → Owns h b → b.dev_allocated ≡ true → gpu ≡ true
  device_there h b v dev = elim (Bool-cases gpu) [
    | inl g ↦ g
    | inr g ↦ absurd (ground (arith, v.no_device g))
  ]

  free_host-live :
      (h : Heap T) (b : Buffer) (x : ℕ)
      → b.host_allocated ≡ true
      → b.data_h ≡ some x
      → h.live x ≡ true
      → free_host (h, b)
        ≡ some (
          record h { live = write h.live x false },
          record b { data_h = none; host_allocated = false },
        )
  unfolding free_host
  free_host-live h b x host p l = rw (host, p, l) refl

  free_device-live :
      (h : Heap T) (b : Buffer) (y : ℕ)
      → gpu ≡ true
      → b.dev_allocated ≡ true
      → b.data_d ≡ some y
      → h.live y ≡ true
      → free_device gpu (h, b)
        ≡ some (
          record h { live = write h.live y false },
          record b { data_d = none; dev_allocated = false },
        )
  unfolding free_device
  free_device-live h b y g dev p l = rw (g, dev, p, l) refl

  free_host-none :
      (h : Heap T) (b : Buffer) → b.host_allocated ≡ false → free_host (h, b) ≡ some (h, b)
  unfolding free_host
  free_host-none h b e = ground arith

  free_device-none :
      (h : Heap T) (b : Buffer) → b.dev_allocated ≡ false → free_device gpu (h, b) ≡ some (h, b)
  unfolding free_device
  free_device-none h b e = ground arith

  pub free_mem-none :
      (h : Heap T) (b : Buffer)
      → b.host_allocated ≡ false
      → b.dev_allocated ≡ false
      → free_mem gpu (h, b) ≡ some (h, b)
  unfolding free_mem
  free_mem-none h b host dev = rw (free_host-none h b host, free_mem) (free_device-none h b dev)

  pub HasBlock-lt :
      (h : Heap T) (b : Buffer) (block : ℕ) → Owns h b → HasBlock b block → block < h.next
  HasBlock-lt h b block v (inl (host, p)) =
      let (x, q, l, n) = v.host_live host in omega (arith, same_block b.data_h block x p q)
  HasBlock-lt h b block v (inr (dev, p)) =
      let (y, q, l, n) = v.dev_live dev in omega (arith, same_block b.data_d block y p q)

  pub free_mem-Freed :
      (h : Heap T) (b : Buffer)
      → Owns h b
      → (h' : Heap T) × (b' : Buffer) × (free_mem gpu (h, b) ≡ some (h', b')) × Freed h b h' b'
  unfolding free_mem
  free_mem-Freed h b v = elim (Bool-cases b.host_allocated) [
    | inl host ↦
        let (x, px, lx, nx) = v.host_live host in
        elim (Bool-cases b.dev_allocated) [
          | inl dev ↦
              let (y, py, ly, ny) = v.dev_live dev in
              let g = device_there h b v dev in
              let ne : y ≢ x = λ e. v.apart x y host dev px py (sym e) in
              (
                record h { live = write (write h.live x false) y false },
                record b {
                  data_h = none;
                  host_allocated = false;
                  data_d = none;
                  dev_allocated = false;
                },
                rw (free_host-live h b x host px lx, free_mem)
                    (free_device-live (record h { live = write h.live x false })
                      (record b { data_h = none; host_allocated = false }) y g dev py
                      (write_other h.live x y false ne ∙ ly)),
                record {
                  no_host = refl;
                  no_dev = refl;
                  type = refl;
                  next = refl;
                  gone = λ block o. elim o [
                    | inl (q, p) ↦ let e = same_block b.data_h block x p px in ground arith
                    | inr (q, p) ↦ let e = same_block b.data_d block y p py in ground arith
                  ];
                  kept = λ block o.
                      write_other (write h.live x false) y block false
                        (λ e. o (inr (dev, py ∙ ap some (sym e))))
                      ∙ write_other h.live x block false
                          (λ e. o (inl (host, px ∙ ap some (sym e))));
                },
              )
          | inr dev ↦ (
            record h { live = write h.live x false },
            record b { data_h = none; host_allocated = false },
            rw (free_host-live h b x host px lx, free_mem)
                (free_device-none (record h { live = write h.live x false })
                  (record b { data_h = none; host_allocated = false }) dev),
            record {
              no_host = refl;
              no_dev = dev;
              type = refl;
              next = refl;
              gone = λ block o. elim o [
                | inl (q, p) ↦ let e = same_block b.data_h block x p px in ground arith
                | inr (q, p) ↦ absurd (ground arith)
              ];
              kept = λ block o.
                  write_other h.live x block false (λ e. o (inl (host, px ∙ ap some (sym e))));
            },
          )
        ]
    | inr host ↦ elim (Bool-cases b.dev_allocated) [
      | inl dev ↦
          let (y, py, ly, ny) = v.dev_live dev in
          let g = device_there h b v dev in
          (
            record h { live = write h.live y false },
            record b { data_d = none; dev_allocated = false },
            rw (free_host-none h b host, free_mem) (free_device-live h b y g dev py ly),
            record {
              no_host = host;
              no_dev = refl;
              type = refl;
              next = refl;
              gone = λ block o. elim o [
                | inl (q, p) ↦ absurd (ground arith)
                | inr (q, p) ↦ let e = same_block b.data_d block y p py in ground arith
              ];
              kept = λ block o.
                  write_other h.live y block false (λ e. o (inr (dev, py ∙ ap some (sym e))));
            },
          )
      | inr dev ↦ (
        h,
        b,
        rw (free_host-none h b host, free_mem) (free_device-none h b dev),
        record {
          no_host = host;
          no_dev = dev;
          type = refl;
          next = refl;
          gone = λ block o. absurd (ground arith);
          kept = λ block o. refl;
        },
      )
    ]
  ]
