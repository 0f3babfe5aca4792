-- ===== src/Net/Answers.antt =====
-- Which pings of src/net.rs are answered, and what they count.
use open_kernel.Base.{
  ◌≡◌, refl, ap, ◌∙◌, Bool, true, false, ◌||◌, List, [], ◌∷◌, ◌++◌, map, arith, str_eq, Str, ◌⊎◌,
  inl, inr, Bool-cases, ◌↔◌, digits,
}
use open_kernel.Base.Text.{codes}
use open_kernel.Base.Text.Laws.{All}
use open_kernel.Net.Address.{Ipv4Addr, ip_to_string}
use open_kernel.Net.Stack.{
  NetworkInterface, NetworkStack, new, ping, ping_interfaces, answers, count_ping, loopback, eth0,
}

silent :
    (before : List NetworkInterface) (t : Str)
    → All (λ i. answers t i.ip ≡ false) before
    → ping_interfaces before t ≡ (false, before)
unfolding ping_interfaces
silent [] t h = refl
silent (i ∷ before) t (e, h) = rw (e, silent before t h)

first :
    (before after : List NetworkInterface) (i : NetworkInterface) (t : Str)
    → All (λ j. answers t j.ip ≡ false) before
    → answers t i.ip ≡ true
    → ping_interfaces (before ++ i ∷ after) t ≡ (true, before ++ count_ping i ∷ after)
unfolding ping_interfaces
first [] after i t h e = rw e
first (j ∷ before) after i t (n, h) e = rw (n, first before after i t h e)

-- A ping is answered by the first interface that passes the test, and only that interface counts
-- four packets and 256 bytes each way.
pub ping_first :
    (before after : List NetworkInterface) (i : NetworkInterface) (t : Str)
    → All (λ j. answers t j.ip ≡ false) before
    → answers t i.ip ≡ true
    → ping (record { interfaces = before ++ i ∷ after }) t
      ≡ (true, record { interfaces = before ++ count_ping i ∷ after })
unfolding ping
ping_first before after i t h e = rw (first before after i t h e, ping)

-- The addresses of the interfaces, which no ping changes.
ips : NetworkStack → List Ipv4Addr
ips s = map (λ i. i.ip) s.interfaces

abbrev pub pings : NetworkStack → List Str → NetworkStack
pings s [] = s
pings s (t ∷ ts) = pings (ping s t).1 ts

some_ip : Str → List Ipv4Addr → Bool
some_ip t [] = false
some_ip t (a ∷ rest) = answers t a || some_ip t rest

ping_interfaces_lem :
    (is : List NetworkInterface) (t : Str)
    → ((ping_interfaces is t).0 ≡ some_ip t (map (λ i. i.ip) is))
      × (map (λ i. i.ip) (ping_interfaces is t).1 ≡ map (λ i. i.ip) is)
unfolding ping_interfaces some_ip
ping_interfaces_lem [] t = (refl, refl)
ping_interfaces_lem (i ∷ is) t =
    let (found, kept) = ping_interfaces_lem is t in
    elim (Bool-cases (answers t i.ip)) [
      | inl e ↦ rw e (refl, refl)
      | inr e ↦ rw e (found, ap (λ r. i.ip ∷ r) kept)
    ]

ping-ips : (s : NetworkStack) (t : Str) → ips (ping s t).1 ≡ ips s
unfolding ping ips
ping-ips s t = (ping_interfaces_lem s.interfaces t).1

pings-ips : (s : NetworkStack) (ts : List Str) → ips (pings s ts) ≡ ips s
pings-ips s [] = refl
pings-ips s (t ∷ ts) = pings-ips (ping s t).1 ts ∙ ping-ips s t

ping-some_ip : (s : NetworkStack) (t : Str) → (ping s t).0 ≡ some_ip t (ips s)
unfolding ping ips
ping-some_ip s t = (ping_interfaces_lem s.interfaces t).0

answers_lem :
    (t : Str) (a : Ipv4Addr) (text : Str)
    → ip_to_string a ≡ text
    → (answers t a ≡ true) ↔ ((text ≡ t) ⊎ (t ≡ codes "127.0.0.1") ⊎ (t ≡ codes "localhost"))
unfolding answers
answers_lem t a text e = rw (e) (ground arith)

ip_lo0 : ip_to_string loopback.ip ≡ codes "127.0.0.1"
unfolding ip_to_string digits
ip_lo0 = refl

ip_eth0 : ip_to_string eth0.ip ≡ codes "192.168.1.100"
unfolding ip_to_string digits
ip_eth0 = refl

boot_ips :
    (t : Str)
    → (some_ip t (ips new) ≡ true)
      ↔ ((t ≡ codes "127.0.0.1") ⊎ (t ≡ codes "localhost") ⊎ (t ≡ codes "192.168.1.100"))
unfolding some_ip ips
boot_ips t =
    let lo = answers_lem t loopback.ip _ ip_lo0 in
    let eth = answers_lem t eth0.ip _ ip_eth0 in ground (arith)

-- From the boot on, after any pings, a ping is answered if and only if its target is "127.0.0.1",
-- "localhost" or the address of eth0.
pub ping-boot :
    (ts : List Str) (t : Str)
    → ((ping (pings new ts) t).0 ≡ true)
      ↔ ((t ≡ codes "127.0.0.1") ⊎ (t ≡ codes "localhost") ⊎ (t ≡ codes "192.168.1.100"))
ping-boot ts t = rw (ping-some_ip, pings-ips) (boot_ips t)
