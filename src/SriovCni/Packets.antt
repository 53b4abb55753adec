-- ===== src/SriovCni/Packets.antt =====
-- The packets of sriov_cni/pkg/utils/packet.go, by which a pod announces its addresses. The
-- sockets of `syscall` and the marshalling of `golang.org/x/net/icmp` are parameters. A write to
-- a `bytes.Buffer` never fails.
pub mod Decoding
use ipu_opi_plugins.Prelude.{
  ℕ, ◌+◌, ◌*◌, ◌/◌, ◌%◌, ◌^◌, Bool, true, false, not, ◌&&◌, Option, none, some, String, List, [],
  ◌∷◌, ◌++◌, length, take, drop, ◌==◌, nat_eq, bytes_eq, if◌then◌else◌,
}
use ipu_opi_plugins.Outcome.{
  Outcome, ok, err, panic, Attempt, pure, throw, throw_if, gets, or_throw, attempt, ◌>>=◌, ◌>>◌,
}
use ipu_opi_plugins.SriovCni.Host.{
  bad_hardware_addr, hops_failed, icmp_failed, neither_ip, no_socket, send_failed, Host, CniError,
  VfLink, lookup_failed,
}
use ipu_opi_plugins.SriovCni.Utils.{Cni, is_valid_mac_address}

-- Bytes are numbers below 256.
abbrev pub Ip : Type 0
Ip = List ℕ

-- `net.IP.To4`
unfoldable pub to4 : Ip → Option Ip
to4 ip =
    if length ip == 4
    then some ip
    else if length ip == 16
        && take 12 ip == 0 ∷ 0 ∷ 0 ∷ 0 ∷ 0 ∷ 0 ∷ 0 ∷ 0 ∷ 0 ∷ 0 ∷ 0xff ∷ 0xff ∷ []
    then some (drop 12 ip)
    else none

-- `net.IP.To16`
unfoldable pub to16 : Ip → Option Ip
to16 ip =
    if length ip == 4
    then some ((0 ∷ 0 ∷ 0 ∷ 0 ∷ 0 ∷ 0 ∷ 0 ∷ 0 ∷ 0 ∷ 0 ∷ 0xff ∷ 0xff ∷ []) ++ ip)
    else if length ip == 16
    then some ip
    else none

abbrev pub is_given : {A : Type 0} → Option A → Bool
is_given none = false
is_given (some _) = true

unfoldable pub is_ipv4 : Ip → Bool
is_ipv4 ip = is_given (to4 ip)

unfoldable pub is_ipv6 : Ip → Bool
is_ipv6 ip = not (is_given (to4 ip)) && is_given (to16 ip)

-- On 16 bits. The mask 0xff00 clears the lower byte, and the two operands of `|` have no bit in
-- common.
unfoldable pub htons : ℕ → ℕ
htons i = (i * 2 ^ 8) % 2 ^ 16 / 2 ^ 8 * 2 ^ 8 + i / 2 ^ 8

-- `binary.Write` with `binary.BigEndian`.
abbrev pub be16 : ℕ → List ℕ
be16 n = n / 2 ^ 8 % 2 ^ 8 ∷ n % 2 ^ 8 ∷ []

abbrev pub be32 : ℕ → List ℕ
be32 n = n / 2 ^ 24 % 2 ^ 8 ∷ n / 2 ^ 16 % 2 ^ 8 ∷ n / 2 ^ 8 % 2 ^ 8 ∷ n % 2 ^ 8 ∷ []

-- A nil slice writes nothing.
abbrev pub slice : Option (List ℕ) → List ℕ
slice none = []
slice (some bytes) = bytes

abbrev pub broadcast : List ℕ
broadcast = 0xff ∷ 0xff ∷ 0xff ∷ 0xff ∷ 0xff ∷ 0xff ∷ []

-- What `SendGratuitousArp` writes to its buffer.
unfoldable pub arp_packet : Ip → List ℕ → List ℕ
arp_packet src_ip hardware_addr =
    be16 1
    ++ be16 0x0800
    ++ (6 ∷ [])
    ++ (4 ∷ [])
    ++ be16 1
    ++ hardware_addr
    ++ slice (to4 src_ip)
    ++ broadcast
    ++ slice (to4 src_ip)

-- What `SendUnsolicitedNeighborAdvertisement` writes to its buffer.
unfoldable pub advertisement : Ip → List ℕ → List ℕ
advertisement src_ip hardware_addr =
    be32 0x20000000 ++ slice (to16 src_ip) ++ (2 ∷ []) ++ (1 ∷ []) ++ hardware_addr

-- `syscall.SockaddrLinklayer`
pub record LinkLayer : Type 0 where
  pub protocol : ℕ
  pub if_index : ℕ
  pub ha_type : ℕ
  pub pkt_type : ℕ
  pub ha_len : ℕ
  pub addr : List ℕ

pub data SockAddr : Type 0 where
  link_layer : LinkLayer → SockAddr
  inet6 : List ℕ → SockAddr

pub record Sockets (K : Type 0) : Type 0 where
  -- The domain, the type and the protocol.
  pub socket : ℕ → ℕ → ℕ → K → Option ℕ × K
  pub set_multicast_hops : ℕ → ℕ → Attempt K
  pub send_to : ℕ → List ℕ → SockAddr → Attempt K
  pub close : ℕ → K → K
  -- The message of the type neighbor advertisement with a body.
  pub marshal_advertisement : List ℕ → Option (List ℕ)

abbrev pub eth_p_arp : ℕ
eth_p_arp = 0x0806

-- ff02::1
abbrev pub all_nodes : Ip
all_nodes = 0xff ∷ 2 ∷ 0 ∷ 0 ∷ 0 ∷ 0 ∷ 0 ∷ 0 ∷ 0 ∷ 0 ∷ 0 ∷ 0 ∷ 0 ∷ 0 ∷ 0 ∷ 1 ∷ []

abbrev pub arp_address : VfLink → SockAddr
arp_address link = link_layer (record {
  protocol = htons eth_p_arp;
  if_index = link.index;
  ha_type = 1;
  pkt_type = 0;
  ha_len = 6;
  addr = 0xff ∷ 0xff ∷ broadcast;
})

module _ {K : Type 0} (host : Host K) (sockets : Sockets K) where
  -- A socket for the steps behind it, which the deferred `syscall.Close` closes.
  abbrev pub with_socket : ℕ → ℕ → ℕ → (ℕ → Cni host (Unit {0})) → Cni host (Unit {0})
  with_socket domain type' protocol f k =
      let (soc, k1) = sockets.socket domain type' protocol k in
      elim soc [
        | none ↦ (err no_socket, k1)
        | some fd ↦ let (r, k2) = f fd k1 in (r, sockets.close fd k2)
      ]

  -- AF_PACKET is 17 and SOCK_DGRAM 2.
  unfoldable pub send_gratuitous_arp : Ip → VfLink → Cni host (Unit {0})
  send_gratuitous_arp src_ip link = with_socket 17 2 (htons eth_p_arp) (λ soc.
      attempt (sockets.send_to soc (arp_packet src_ip link.hardware_addr) (arp_address link))
        send_failed)

  abbrev pub send_advertisement : List ℕ → ℕ → Cni host (Unit {0})
  send_advertisement bytes soc = do
    attempt (sockets.set_multicast_hops soc 255) hops_failed
    attempt (sockets.send_to soc bytes (inet6 all_nodes)) send_failed

  -- AF_INET6 is 10, SOCK_RAW 3 and IPPROTO_ICMPV6 58.
  unfoldable pub send_unsolicited_neighbor_advertisement : Ip → VfLink → Cni host (Unit {0})
  send_unsolicited_neighbor_advertisement src_ip link = do
    bytes ←
        or_throw (sockets.marshal_advertisement (advertisement src_ip link.hardware_addr))
          icmp_failed
    with_socket 10 3 58 (send_advertisement bytes)

  -- One turn of the loop of `AnnounceIPs`.
  unfoldable pub announce_ip : VfLink → Ip → Cni host (Unit {0})
  announce_ip link ip k =
      if is_ipv6 ip
      then send_unsolicited_neighbor_advertisement ip link k
      else if is_ipv4 ip
      then send_gratuitous_arp ip link k
      else (err neither_ip, k)

  unfoldable pub announce_all : VfLink → List Ip → Cni host (Unit {0})
  announce_all link [] = pure tt
  announce_all link (ip ∷ ips) = announce_ip link ip >> announce_all link ips

  unfoldable pub announce_ips : String → List Ip → Cni host (Unit {0})
  announce_ips if_name ips = do
    link ← or_throw (← gets (λ k. host.link_by_name k if_name)) lookup_failed
    throw_if (not (is_valid_mac_address link.hardware_addr)) bad_hardware_addr
    announce_all link ips
