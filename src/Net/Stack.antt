-- ===== src/Net/Stack.antt =====
-- The network stack of src/net.rs. A counter is a u64, and its addition wraps.
use open_kernel.Base.{
  ℕ, ◌+◌, ◌%◌, ◌^◌, Bool, true, false, ◌||◌, List, [], ◌∷◌, ◌++◌, map, ◌==◌, nat_eq, str_eq, Str,
  if◌then◌else◌, decimal,
}
use open_kernel.Base.Text.{codes}
use open_kernel.Net.Address.{MacAddress, Ipv4Addr, mac_to_string, ip_to_string}

pub record NetworkInterface : Type 0 where
  pub name : Str
  pub mac : MacAddress
  pub ip : Ipv4Addr
  pub rx_packets : ℕ
  pub tx_packets : ℕ
  pub rx_bytes : ℕ
  pub tx_bytes : ℕ

abbrev pub loopback : NetworkInterface
loopback = record {
  name = codes "lo0";
  mac = record { octet0 = 0; octet1 = 0; octet2 = 0; octet3 = 0; octet4 = 0; octet5 = 0 };
  ip = record { octet0 = 127; octet1 = 0; octet2 = 0; octet3 = 1 };
  rx_packets = 4;
  tx_packets = 4;
  rx_bytes = 256;
  tx_bytes = 256;
}

abbrev pub eth0 : NetworkInterface
eth0 = record {
  name = codes "eth0";
  mac = record {
    octet0 = 0x52;
    octet1 = 0x54;
    octet2 = 0x00;
    octet3 = 0x12;
    octet4 = 0x34;
    octet5 = 0x56;
  };
  ip = record { octet0 = 192; octet1 = 168; octet2 = 1; octet3 = 100 };
  rx_packets = 12;
  tx_packets = 8;
  rx_bytes = 1420;
  tx_bytes = 980;
}

pub record NetworkStack : Type 0 where
  pub interfaces : List NetworkInterface

abbrev pub new : NetworkStack
new = record { interfaces = loopback ∷ eth0 ∷ [] }

abbrev pub u64 : ℕ → ℕ
u64 n = n % 2 ^ 64

-- The four packets of a ping, counted.
abbrev pub count_ping : NetworkInterface → NetworkInterface
count_ping i = record i {
  tx_packets = u64 (i.tx_packets + 4);
  rx_packets = u64 (i.rx_packets + 4);
  tx_bytes = u64 (i.tx_bytes + 256);
  rx_bytes = u64 (i.rx_bytes + 256);
}

-- The test of the loop in `ping`.
unfoldable pub answers : Str → Ipv4Addr → Bool
answers target_ip ip =
    ip_to_string ip == target_ip || target_ip == codes "127.0.0.1" || target_ip == codes "localhost"

unfoldable pub ping_interfaces : List NetworkInterface → Str → Bool × List NetworkInterface
ping_interfaces [] target_ip = (false, [])
ping_interfaces (i ∷ rest) target_ip =
    let (answered, later) = ping_interfaces rest target_ip in
    if answers target_ip i.ip then (true, count_ping i ∷ rest) else (answered, i ∷ later)

unfoldable pub ping : NetworkStack → Str → Bool × NetworkStack
ping s target_ip =
    let (answered, interfaces) = ping_interfaces s.interfaces target_ip in
    (answered, record { interfaces = interfaces })

-- The lines of the command, which prints each to the serial port and to the screen.
abbrev pub reply_line : Str → ℕ → Str
reply_line target seq =
    codes "64 bytes from "
    ++ target
    ++ codes ": icmp_seq="
    ++ decimal seq
    ++ codes " ttl=64 time=0.342 ms"

abbrev pub ping_lines : Bool → Str → List Str
ping_lines true target =
    map (reply_line target) (1 ∷ 2 ∷ 3 ∷ 4 ∷ [])
    ++ (codes "--- "
        ++ target
        ++ codes
            " ping statistics ---\n4 packets transmitted, 4 packets received, 0.0% packet loss")
      ∷ []
ping_lines false target = (codes "Request timeout for icmp_seq 1 to " ++ target) ∷ []

unfoldable pub ping_command : NetworkStack → Str → List Str × NetworkStack
ping_command s target =
    let (answered, after) = ping s target in
    (
      (codes "PING " ++ target ++ codes " (" ++ target ++ codes "): 56 data bytes")
          ∷ ping_lines answered target,
      after,
    )

abbrev pub ifconfig_line : NetworkInterface → Str
ifconfig_line i =
    i.name
    ++ codes ": flags=UP LOOPBACK RUNNING  mtu 1500\n        inet "
    ++ ip_to_string i.ip
    ++ codes "  netmask 255.255.255.0\n        ether "
    ++ mac_to_string i.mac
    ++ codes "\n        RX packets "
    ++ decimal i.rx_packets
    ++ codes "  bytes "
    ++ decimal i.rx_bytes
    ++ codes "\n        TX packets "
    ++ decimal i.tx_packets
    ++ codes "  bytes "
    ++ decimal i.tx_bytes

abbrev pub ifconfig_lines : NetworkStack → List Str
ifconfig_lines s = map ifconfig_line s.interfaces

abbrev pub netstat_info : Str
netstat_info =
    codes "Proto Recv-Q Send-Q Local Address          Foreign Address        State\n"
    ++ codes "tcp        0      0 127.0.0.1:80           0.0.0.0:*              LISTEN\n"
    ++ codes "tcp        0      0 192.168.1.100:22       192.168.1.1:54321      ESTABLISHED\n"
    ++ codes "udp        0      0 0.0.0.0:68             0.0.0.0:*"
