-- ===== src/Buffer/Tests.antt =====
-- A heap with one buffer of eight elements on the host and another one, and the theorems at them.
use aperture4_nick.Base.{
  ℕ, ◌+◌, ◌-◌, ◌<◌, ◌≡◌, ◌≢◌, refl, arith, min, true, false, ◌&&◌, none, some, ltb, leb,
  if◌then◌else◌,
}
use aperture4_nick.Buffer.{host_only, on_host, on_device, Heap, Buffer, resize, host_copy_from}
use aperture4_nick.Buffer.Ownership.{HasBlock, Owns}
use aperture4_nick.Buffer.Resize.{resize-Owns}
use aperture4_nick.Buffer.Contents.{host_copy_from_lem}

abbrev heap : Heap ℕ
heap = record { blocks = λ block a. a; live = λ block. ltb block 2; next = 2 }

abbrev first : Buffer
first = record {
  size = 8;
  data_h = some 0;
  data_d = none;
  host_allocated = true;
  dev_allocated = false;
  mem_type = host_only;
}

abbrev second : Buffer
second = record {
  size = 5;
  data_h = some 1;
  data_d = none;
  host_allocated = true;
  dev_allocated = false;
  mem_type = host_only;
}

first-Owns : Owns false heap first
first-Owns = record {
  host_live = λ e. (0, refl, refl, omega arith);
  dev_live = λ e. absurd (ground arith);
  apart = λ x y e f. absurd (ground arith);
  no_device = λ g. refl;
}

resize-Owns_example :
    (h' : Heap ℕ) × (b' : Buffer) × (resize false 20 (heap, first) ≡ some (h', b'))
    × Owns false h' b'
    × ((block : ℕ) → HasBlock first block → h'.live block ≡ false)
    × ((block : ℕ) → block < 2 → ¬ HasBlock first block → h'.live block ≡ ltb block 2)
    × (0 < 20
        → (b'.size ≡ 20)
          × (b'.host_allocated ≡ on_host host_only)
          × (b'.dev_allocated ≡ on_device false host_only))
resize-Owns_example = resize-Owns false 20 heap first first-Owns

host_copy_from_lem_example :
    ((a : ℕ)
      → (host_copy_from second 6 1 4 (heap, first)).blocks 0 a
        ≡ (if leb 4 a && ltb a (4 + min 6 (min (8 - 4) (5 - 1))) then 1 + (a - 4) else a))
    × ((c : ℕ) → c ≢ 0 → (host_copy_from second 6 1 4 (heap, first)).blocks c ≡ (λ a. a))
host_copy_from_lem_example =
    host_copy_from_lem second 6 1 4 heap first 1 0 refl refl refl refl (omega arith) (omega arith)
      (omega arith) (omega arith) (omega arith) (omega arith)
