-- ===== src/Net/Tests.antt =====
-- The network of src/net.rs at concrete targets.
use open_kernel.Base.{◌≡◌, refl, arith, true, false, [], ◌∷◌, Str_dec, digits, ◌↔◌, ◌⊎◌}
use native.Mathlib.Decide.{ℕ_discrete}
use open_kernel.Base.Text.{codes}
use open_kernel.Net.Address.{ip_to_string, mac_to_string}
use open_kernel.Net.Parse.{IsAddr}
use open_kernel.Net.Stack.{loopback, eth0, new, ping, answers}
use open_kernel.Net.Answers.{pings, ping-boot}

eth0_mac : mac_to_string eth0.mac ≡ codes "52:54:00:12:34:56"
eth0_mac = refl

eth0-IsAddr : IsAddr eth0.ip
eth0-IsAddr = record {
  octet0 = omega arith;
  octet1 = omega arith;
  octet2 = omega arith;
  octet3 = omega arith;
}

lo0_passes_not : answers (codes "192.168.1.100") loopback.ip ≡ false
unfolding answers ip_to_string digits Str_dec ℕ_discrete
lo0_passes_not = refl

eth0_passes : answers (codes "192.168.1.100") eth0.ip ≡ true
unfolding answers ip_to_string digits Str_dec ℕ_discrete
eth0_passes = refl

ping-boot_example : ((ping (pings new (codes "localhost" ∷ [])) (codes "10.0.0.1")).0 ≡ true) ↔ (
    (codes "10.0.0.1" ≡ codes "127.0.0.1")
    ⊎ (codes "10.0.0.1" ≡ codes "localhost")
    ⊎ (codes "10.0.0.1" ≡ codes "192.168.1.100"))
ping-boot_example = ping-boot (codes "localhost" ∷ []) (codes "10.0.0.1")
