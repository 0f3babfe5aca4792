-- ===== src/Driver/RamDisk.antt =====
-- The RAM disk of src/driver.rs. A call that can panic gives an `Option`.
use open_kernel.Base.{
  ℕ, Bool, true, false, Option, none, some, List, ◌++◌, leb, ◌==◌, nat_eq, if◌then◌else◌, length,
  get_elem?, set, take, drop, replicate, Str,
}
use open_kernel.Base.Text.{codes}

pub record RamDiskDriver : Type 0 where
  pub name : Str
  pub blocks : List (List ℕ)
  pub block_size : ℕ
  pub status : Str

abbrev pub new : ℕ → ℕ → RamDiskDriver
new block_count block_size = record {
  name = codes "ramdisk0";
  blocks = replicate block_count (replicate block_size 0);
  block_size = block_size;
  status = codes "active";
}

abbrev pub device_type : RamDiskDriver → Str
device_type d = codes "Storage (Block Device)"

abbrev pub init : RamDiskDriver → Bool × RamDiskDriver
init d = (true, record d { status = codes "ready" })

abbrev pub block_count : RamDiskDriver → ℕ
block_count d = length d.blocks

-- `slice::copy_from_slice` panics unless the lengths agree.
abbrev pub copy_from_slice : List ℕ → List ℕ → Option (List ℕ)
copy_from_slice dst src = if length dst == length src then some src else none

-- The buffer after the call.
unfoldable pub read_block : RamDiskDriver → ℕ → List ℕ → Option (Bool × List ℕ)
read_block d block_id buf = elim (get_elem? d.blocks block_id) [
  | none ↦ some (false, buf)
  | some block ↦
      if leb d.block_size (length buf)
      then elim (copy_from_slice (take d.block_size buf) block) [
        | none ↦ none
        | some copied ↦ some (true, copied ++ drop d.block_size buf)
      ]
      else some (false, buf)
]

unfoldable pub write_block : RamDiskDriver → ℕ → List ℕ → Option (Bool × RamDiskDriver)
write_block d block_id buf = elim (get_elem? d.blocks block_id) [
  | none ↦ some (false, d)
  | some block ↦
      if leb d.block_size (length buf)
      then elim (copy_from_slice block (take d.block_size buf)) [
        | none ↦ none
        | some copied ↦ some (true, record d { blocks = set d.blocks block_id copied })
      ]
      else some (false, d)
]
