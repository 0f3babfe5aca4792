-- ===== src/Driver/Tests.antt =====
-- The drivers of src/driver.rs at concrete blocks.
use open_kernel.Base.{
  ℕ, ◌≡◌, refl, arith, true, some, [], ◌∷◌, ◌++◌, take, drop, ◌==◌, nat_eq, if◌then◌else◌,
}
use open_kernel.Base.Text.{codes}
use open_kernel.Driver.RamDisk
use open_kernel.Driver.RamDisk.{RamDiskDriver, read_block, write_block}
use open_kernel.Driver.Manager
use open_kernel.Driver.Blocks.{IsValid, new-IsValid, read_block-write_block}

-- Three blocks of two bytes.
abbrev disk : RamDiskDriver
disk = RamDisk.new 3 2

disk_rewritten : read_block disk 1 (7 ∷ 8 ∷ 9 ∷ []) ≡ some (true, 0 ∷ 0 ∷ 9 ∷ [])
unfolding read_block
disk_rewritten = refl

boot_drivers :
    Manager.list_drivers Manager.new
    ≡ (codes "ramdisk0", codes "Storage (Block Device)", codes "active")
      ∷ (codes "gop-graphics", codes "Graphics (GOP Framebuffer)", codes "ready")
      ∷ []
boot_drivers = refl

read_block-write_block_example :
    (written : RamDiskDriver) × (write_block disk 1 (5 ∷ 6 ∷ 7 ∷ []) ≡ some (true, written))
    × IsValid written
    × (read_block written 1 (0 ∷ 0 ∷ 9 ∷ []) ≡ (
        if ◌==◌ {T = ℕ} 1 1
        then some (true, take 2 (5 ∷ 6 ∷ 7 ∷ []) ++ drop 2 (0 ∷ 0 ∷ 9 ∷ []))
        else read_block disk 1 (0 ∷ 0 ∷ 9 ∷ [])))
read_block-write_block_example =
    read_block-write_block disk 1 1 (5 ∷ 6 ∷ 7 ∷ []) (0 ∷ 0 ∷ 9 ∷ []) (new-IsValid 3 2)
      (omega arith) (omega arith) (omega arith)
