-- ===== src/Net/Address.antt =====
-- The addresses of src/net.rs, and how they are printed.
use open_kernel.Base.{ℕ, ◌∷◌, ◌++◌, Str, decimal, hex_byte}

pub record MacAddress : Type 0 where
  pub octet0 : ℕ
  pub octet1 : ℕ
  pub octet2 : ℕ
  pub octet3 : ℕ
  pub octet4 : ℕ
  pub octet5 : ℕ

pub record Ipv4Addr : Type 0 where
  pub octet0 : ℕ
  pub octet1 : ℕ
  pub octet2 : ℕ
  pub octet3 : ℕ

-- `:` is 58 and `.` is 46.
abbrev pub mac_to_string : MacAddress → Str
mac_to_string m =
    hex_byte m.octet0
    ++ 58 ∷ hex_byte m.octet1
    ++ 58 ∷ hex_byte m.octet2
    ++ 58 ∷ hex_byte m.octet3
    ++ 58 ∷ hex_byte m.octet4
    ++ 58 ∷ hex_byte m.octet5

unfoldable pub ip_to_string : Ipv4Addr → Str
ip_to_string a =
    decimal a.octet0 ++ 46 ∷ decimal a.octet1 ++ 46 ∷ decimal a.octet2 ++ 46 ∷ decimal a.octet3
