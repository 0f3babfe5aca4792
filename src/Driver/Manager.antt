-- ===== src/Driver/Manager.antt =====
-- The list of the registered drivers of src/driver.rs. A `dyn Driver` is one of the two implementations.
use open_kernel.Base.{List, [], ◌∷◌, ◌++◌, map, nat_eq, Str}
use open_kernel.Driver.RamDisk
use open_kernel.Driver.RamDisk.{RamDiskDriver}
use open_kernel.Driver.Display
use open_kernel.Driver.Display.{FramebufferDisplayDriver}

pub data Driver : Type 0 where
  ram_disk : RamDiskDriver → Driver
  framebuffer : FramebufferDisplayDriver → Driver

abbrev pub name : Driver → Str
name (ram_disk d) = d.name
name (framebuffer d) = d.name

abbrev pub device_type : Driver → Str
device_type (ram_disk d) = RamDisk.device_type d
device_type (framebuffer d) = Display.device_type d

abbrev pub status : Driver → Str
status (ram_disk d) = d.status
status (framebuffer d) = d.status

pub record DriverManager : Type 0 where
  pub drivers : List Driver

abbrev pub register : DriverManager → Driver → DriverManager
register m driver = record { drivers = m.drivers ++ driver ∷ [] }

abbrev pub new : DriverManager
new =
    register (register (record { drivers = [] }) (ram_disk (RamDisk.new 128 512)))
      (framebuffer Display.new)

abbrev pub list_drivers : DriverManager → List (Str × Str × Str)
list_drivers m = map (λ d. (name d, device_type d, status d)) m.drivers
