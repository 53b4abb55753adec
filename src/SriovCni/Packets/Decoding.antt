-- ===== src/SriovCni/Packets/Decoding.antt =====
-- The packets read back by the layouts of RFC 826 and RFC 4861, and the byte order of `htons`.
use ipu_opi_plugins.Prelude.{
  ℕ, ◌+◌, ◌*◌, ◌^◌, ◌<◌, ◌≡◌, refl, ap, ◌∙◌, true, Option, none, some, List, [], ◌∷◌, ◌++◌, length,
  length-append, length-drop, take, drop, take-append, drop-append, ◌==◌, nat_eq, bytes_eq,
  if◌then◌else◌, arith,
}
use mathlib.Core.List.{append_assoc}
use ipu_opi_plugins.SriovCni.Packets.{
  slice, Ip, to4, to16, htons, arp_packet, advertisement, broadcast,
}

pub htons-htons : (i : ℕ) → i < 2 ^ 16 → htons (htons i) ≡ i
unfolding htons
htons-htons i h = omega arith

pub record Arp : Type 0 where
  pub hardware_type : ℕ
  pub protocol_type : ℕ
  pub operation : ℕ
  pub sender_hardware : List ℕ
  pub sender_protocol : List ℕ
  pub target_hardware : List ℕ
  pub target_protocol : List ℕ

abbrev pub number16 : ℕ → ℕ → ℕ
number16 high low = high * 2 ^ 8 + low

-- The four addresses behind the header, by the lengths that it gives.
abbrev pub decode_addresses : ℕ → ℕ → ℕ → ℕ → ℕ → List ℕ → Option Arp
decode_addresses hardware protocol op hlen plen rest =
    if length rest == hlen + plen + hlen + plen
    then some (record {
      hardware_type = hardware;
      protocol_type = protocol;
      operation = op;
      sender_hardware = take hlen rest;
      sender_protocol = take plen (drop hlen rest);
      target_hardware = take hlen (drop plen (drop hlen rest));
      target_protocol = drop hlen (drop plen (drop hlen rest));
    })
    else none

abbrev pub decode_arp : List ℕ → Option Arp
decode_arp (h1 ∷ h0 ∷ p1 ∷ p0 ∷ hlen ∷ plen ∷ o1 ∷ o0 ∷ rest) =
    decode_addresses (number16 h1 h0) (number16 p1 p0) (number16 o1 o0) hlen plen rest
decode_arp _ = none

pub to4-length : (ip ip4 : Ip) → to4 ip ≡ some ip4 → length ip4 ≡ 4
unfolding to4
to4-length ip ip4 h = let rest = length-drop 12 ip in ground arith

regroup : (a b c d : List ℕ) → a ++ b ++ c ++ d ≡ a ++ (b ++ (c ++ d))
regroup a b c d = append_assoc (a ++ b) c d ∙ append_assoc a b (c ++ d)

-- Four addresses of the right lengths, one behind the other, are read back.
decode_addresses_lem :
    (hardware protocol op hlen plen : ℕ) (sh sp th tp : List ℕ)
    → length sh ≡ hlen
    → length sp ≡ plen
    → length th ≡ hlen
    → length tp ≡ plen
    → decode_addresses hardware protocol op hlen plen (sh ++ (sp ++ (th ++ tp)))
      ≡ some (record {
        hardware_type = hardware;
        protocol_type = protocol;
        operation = op;
        sender_hardware = sh;
        sender_protocol = sp;
        target_hardware = th;
        target_protocol = tp;
      })
decode_addresses_lem hardware protocol op hlen plen sh sp th tp a b c d =
    let total : (length (sh ++ (sp ++ (th ++ tp))) == hlen + plen + hlen + plen) ≡ true =
      let n1 = length-append sh (sp ++ (th ++ tp)) in
      let n2 = length-append sp (th ++ tp) in let n3 = length-append th tp in ground arith in
    rw
      (
        total,
        take-append hlen sh (sp ++ (th ++ tp)) a,
        drop-append hlen sh (sp ++ (th ++ tp)) a,
        take-append plen sp (th ++ tp) b,
        drop-append plen sp (th ++ tp) b,
        take-append hlen th tp c,
        drop-append hlen th tp c,
      )
      refl

-- The packet of `SendGratuitousArp` for an address with a form of 4 bytes and a hardware address
-- of 6 bytes is read back, by the lengths in its header, as a request for IPv4 over Ethernet
-- whose sender and target have the address, whose sender has the hardware address, and whose
-- target has the broadcast address.
pub decode_arp-arp_packet :
    (ip ip4 hardware : List ℕ)
    → to4 ip ≡ some ip4
    → length hardware ≡ 6
    → decode_arp (arp_packet ip hardware)
      ≡ some (record {
        hardware_type = 1;
        protocol_type = 0x0800;
        operation = 1;
        sender_hardware = hardware;
        sender_protocol = ip4;
        target_hardware = broadcast;
        target_protocol = ip4;
      })
unfolding arp_packet
decode_arp-arp_packet ip ip4 hardware v4 six =
    ap (decode_addresses 1 0x0800 1 6 4) (
      ap (λ v. hardware ++ slice v ++ broadcast ++ slice v) v4 ∙ regroup hardware ip4 broadcast ip4)
    ∙ decode_addresses_lem 1 0x0800 1 6 4 hardware ip4 broadcast ip4 six (to4-length ip ip4 v4) refl
        (to4-length ip ip4 v4)

-- The body of a neighbor advertisement with one option, whose length is in units of 8 bytes.
pub record Advertisement : Type 0 where
  pub flags : List ℕ
  pub target : List ℕ
  pub option : ℕ
  pub link_layer : List ℕ

abbrev pub decode_option : List ℕ → List ℕ → List ℕ → Option Advertisement
decode_option flags target (type' ∷ units ∷ rest) =
    if length rest + 2 == units * 8
    then some (record { flags = flags; target = target; option = type'; link_layer = rest })
    else none
decode_option flags target _ = none

abbrev pub decode_advertisement : List ℕ → Option Advertisement
decode_advertisement (f3 ∷ f2 ∷ f1 ∷ f0 ∷ rest) =
    decode_option (f3 ∷ f2 ∷ f1 ∷ f0 ∷ []) (take 16 rest) (drop 16 rest)
decode_advertisement _ = none

pub to16-length : (ip ip6 : Ip) → to16 ip ≡ some ip6 → length ip6 ≡ 16
unfolding to16
to16-length ip ip6 h = ground arith

pub decode_advertisement-advertisement :
    (ip ip6 hardware : List ℕ)
    → to16 ip ≡ some ip6
    → length hardware ≡ 6
    → decode_advertisement (advertisement ip hardware)
      ≡ some (record {
        flags = 0x20 ∷ 0 ∷ 0 ∷ 0 ∷ [];
        target = ip6;
        option = 2;
        link_layer = hardware;
      })
unfolding advertisement
decode_advertisement-advertisement ip ip6 hardware v6 six =
    let fits : (length hardware + 2 == 1 * 8) ≡ true = ground arith in
    let wide = to16-length ip ip6 v6 in
    rw
      (
        v6,
        append_assoc (ip6 ++ 2 ∷ []) (1 ∷ []) hardware,
        append_assoc ip6 (2 ∷ []) (1 ∷ hardware),
        take-append 16 ip6 (2 ∷ 1 ∷ hardware) wide,
        drop-append 16 ip6 (2 ∷ 1 ∷ hardware) wide,
        fits,
      )
      refl
