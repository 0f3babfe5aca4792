-- ===== src/Driver/Display.antt =====
-- The display driver of src/driver.rs.
use open_kernel.Base.{ℕ, Bool, true, nat_eq, Str}
use open_kernel.Base.Text.{codes}

pub record FramebufferDisplayDriver : Type 0 where
  pub name : Str
  pub status : Str

abbrev pub new : FramebufferDisplayDriver
new = record { name = codes "gop-graphics"; status = codes "ready" }

abbrev pub device_type : FramebufferDisplayDriver → Str
device_type d = codes "Graphics (GOP Framebuffer)"

abbrev pub init : FramebufferDisplayDriver → Bool × FramebufferDisplayDriver
init d = (true, record d { status = codes "active" })

abbrev pub width : FramebufferDisplayDriver → ℕ
width d = 1024

abbrev pub height : FramebufferDisplayDriver → ℕ
height d = 768
