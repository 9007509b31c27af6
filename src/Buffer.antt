-- ===== src/Buffer.antt =====
-- core/buffer.hpp, `buffer`: memory on the host and on the device. The heap is the blocks that `new` and
-- `gpuMalloc` have given out; a pointer is the number of a block. `gpu` says whether the build has a
-- device, and `none` stands for a block that is freed a second time.
pub mod Ownership
pub mod Resize
pub mod Contents
mod Tests
use aperture4_nick.Base.{
  ℕ, zero, suc, ◌+◌, ◌-◌, ◌%◌, ◌^◌, min, Bool, true, false, not, ◌&&◌, ◌||◌, ltb, leb, ◌==◌,
  if◌then◌else◌, List, [], ◌∷◌, Option, none, some, Array, write, add_size, sub_size,
}

pub data MemType : Type 0 where
  host_only host_device device_managed device_only : MemType

pub record Heap (T : Type 0) : Type 0 where
  pub blocks : Array (Array T)
  pub live : Array Bool
  pub next : ℕ

pub record Buffer : Type 0 where
  pub size : ℕ
  pub data_h : Option ℕ
  pub data_d : Option ℕ
  pub host_allocated : Bool
  pub dev_allocated : Bool
  pub mem_type : MemType

-- the conditions on `m_type` of `alloc_mem`
abbrev pub on_host : MemType → Bool
on_host host_only = true
on_host host_device = true
on_host device_managed = false
on_host device_only = false

abbrev pub on_device : Bool → MemType → Bool
on_device gpu host_only = false
on_device gpu host_device = gpu
on_device gpu device_managed = gpu
on_device gpu device_only = gpu

abbrev pub is_managed : MemType → Bool
is_managed device_managed = true
is_managed host_only = false
is_managed host_device = false
is_managed device_only = false

abbrev pub is_host_only : MemType → Bool
is_host_only host_only = true
is_host_only host_device = false
is_host_only device_managed = false
is_host_only device_only = false

-- the default constructor
abbrev pub new_buffer : MemType → Buffer
new_buffer type = record {
  size = 0;
  data_h = none;
  data_d = none;
  host_allocated = false;
  dev_allocated = false;
  mem_type = type;
}

-- The count after the two checks of `host_copy_from`.
unfoldable pub clamped : ℕ → ℕ → ℕ → ℕ → ℕ → ℕ
clamped size other_size num src_pos dst_pos =
    let num' : ℕ = if ltb size (add_size dst_pos num) then sub_size size dst_pos else num in
    if ltb other_size (add_size src_pos num') then sub_size other_size src_pos else num'

module _ {T : Type 0} where
  -- `new T[size]` and `gpuMalloc`: what the block holds is what the heap has there.
  abbrev pub allocate : Heap T → Heap T
  allocate h = record h { live = write h.live h.next true; next = h.next + 1 }

  -- `delete[]` and `gpuFree`; a null pointer is left alone.
  abbrev pub free : Option ℕ → Heap T → Option (Heap T)
  free none h = some h
  free (some block) h =
      if h.live block then some (record h { live = write h.live block false }) else none

  unfoldable pub alloc_host : Heap T × Buffer → Heap T × Buffer
  alloc_host (h, b) =
      if on_host b.mem_type
      then (allocate h, record b { data_h = some h.next; host_allocated = true })
      else (h, b)

  unfoldable pub alloc_device : Bool → Heap T × Buffer → Heap T × Buffer
  alloc_device gpu (h, b) =
      if on_device gpu b.mem_type
      then (
        allocate h,
        record b {
          data_d = some h.next;
          data_h = if is_managed b.mem_type then some h.next else b.data_h;
          dev_allocated = true;
        },
      )
      else (h, b)

  unfoldable pub alloc_mem : Bool → ℕ → Heap T × Buffer → Heap T × Buffer
  unfolding alloc_host alloc_device
  alloc_mem gpu size s =
      let (h, b) = alloc_device gpu (alloc_host s) in (h, record b { size = size })

  unfoldable pub free_host : Heap T × Buffer → Option (Heap T × Buffer)
  free_host (h, b) =
      if b.host_allocated
      then elim (free b.data_h h) [
        | none ↦ none
        | some h' ↦ some (h', record b { data_h = none; host_allocated = false })
      ]
      else some (h, b)

  unfoldable pub free_device : Bool → Heap T × Buffer → Option (Heap T × Buffer)
  free_device gpu (h, b) =
      if gpu && b.dev_allocated
      then elim (free b.data_d h) [
        | none ↦ none
        | some h' ↦ some (h', record b { data_d = none; dev_allocated = false })
      ]
      else some (h, b)

  unfoldable pub free_mem : Bool → Heap T × Buffer → Option (Heap T × Buffer)
  unfolding free_host free_device
  free_mem gpu s = elim (free_host s) [ none ↦ none | some s' ↦ free_device gpu s' ]

  unfoldable pub resize : Bool → ℕ → Heap T × Buffer → Option (Heap T × Buffer)
  unfolding free_mem alloc_mem
  resize gpu size (h, b) =
      let freed : Option (Heap T × Buffer) =
        if b.host_allocated || b.dev_allocated then free_mem gpu (h, b) else some (h, b) in
      elim freed [ none ↦ none | some s ↦ some (if ltb 0 size then alloc_mem gpu size s else s) ]

  -- The host versions of `assign` and of the copy.
  unfoldable pub ptr_assign : Array T → ℕ → ℕ → T → Array T
  ptr_assign array start end value a = if leb start a && ltb a end then value else array a

  unfoldable pub ptr_copy : Array T → Array T → ℕ → ℕ → ℕ → Array T
  ptr_copy src dst num src_pos dst_pos a =
      if leb dst_pos a && ltb a (dst_pos + num) then src (src_pos + (a - dst_pos)) else dst a

  -- What `m_data_h` points to is changed. The code that gets here has a pointer.
  abbrev pub on_block : (Array T → Array T) → Option ℕ → Heap T → Heap T
  on_block f none h = h
  on_block f (some block) h = record h { blocks = write h.blocks block (f (h.blocks block)) }

  unfoldable pub assign_host : ℕ → ℕ → T → Heap T × Buffer → Heap T
  unfolding ptr_assign
  assign_host start end value (h, b) =
      let end' : ℕ = min b.size end in
      let start' : ℕ = min start end' in
      if b.host_allocated
      then on_block (λ array. ptr_assign array start' end' value) b.data_h h
      else h

  unfoldable pub host_copy_from : Buffer → ℕ → ℕ → ℕ → Heap T × Buffer → Heap T
  unfolding ptr_copy clamped
  host_copy_from other num src_pos dst_pos (h, b) =
      let num' : ℕ = clamped b.size other.size num src_pos dst_pos in
      if b.host_allocated && other.host_allocated
      then elim other.data_h [
        | none ↦ h
        | some from ↦
            on_block (λ array. ptr_copy (h.blocks from) array num' src_pos dst_pos) b.data_h h
      ]
      else h

  -- `emplace`: the values of the list from `pos` on, up to the end of the buffer.
  unfoldable pub emplace_values : ℕ → ℕ → List T → Array T → Array T
  emplace_values size pos [] array = array
  emplace_values size pos (t ∷ list) array =
      let rest = emplace_values size (pos + 1) list (write array pos t) in
      if leb size pos then array else rest

  unfoldable pub emplace : ℕ → List T → Heap T × Buffer → Heap T
  unfolding emplace_values
  emplace pos list (h, b) = elim b.mem_type [
    | device_only ↦ h
    | _ ↦ on_block (emplace_values b.size pos list) b.data_h h
  ]

-- `operator=(self_type&&)`: the target and the source afterwards.
unfoldable pub move_assign : Buffer → Buffer → Buffer × Buffer
move_assign target other = (
  record {
    size = other.size;
    data_h = other.data_h;
    data_d = other.data_d;
    host_allocated = other.host_allocated;
    dev_allocated = other.dev_allocated;
    mem_type = other.mem_type;
  },
  record other {
    size = 0;
    data_h = none;
    data_d = none;
    host_allocated = false;
    dev_allocated = false;
  },
)
