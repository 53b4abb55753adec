-- ===== src/Tests/Packets.antt =====
-- The packets for the address 10.0.0.1.
use ipu_opi_plugins.Prelude.{◌≡◌, refl, ℕ, some, List, [], ◌∷◌, arith, nat_eq, bytes_eq}
use ipu_opi_plugins.SriovCni.Packets.{to4, arp_packet, broadcast}
use ipu_opi_plugins.SriovCni.Packets.Decoding.{decode_arp, decode_arp-arp_packet}

abbrev ip : List ℕ
ip = 10 ∷ 0 ∷ 0 ∷ 1 ∷ []

abbrev mac : List ℕ
mac = 0 ∷ 8 ∷ 0 ∷ 0 ∷ 3 ∷ 20 ∷ []

four : to4 ip ≡ some ip
unfolding to4 nat_eq
four = refl

decode_arp-arp_packet_example :
    decode_arp (arp_packet ip mac)
    ≡ some (record {
      hardware_type = 1;
      protocol_type = 0x0800;
      operation = 1;
      sender_hardware = mac;
      sender_protocol = ip;
      target_hardware = broadcast;
      target_protocol = ip;
    })
decode_arp-arp_packet_example = decode_arp-arp_packet ip ip mac four (omega arith)
