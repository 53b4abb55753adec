-- ===== src/IpuPlugin/Rules/Address.antt =====
-- The number of an address, by which two tables of the packet processor are keyed.
use native.Mathlib.Nat.{pow-le-pow_right}
use ipu_opi_plugins.Prelude.{ℕ, ◌^◌, ◌≤◌, ◌<◌, ◌≡◌, sym, ◌∙◌, ap, List, length, arith}
use ipu_opi_plugins.Text.Hex.{format_hex, parse_hex-format_hex}
use ipu_opi_plugins.Text.Hardware.{
  AreBytes, parse_hex, number_onto, number_onto-lt, number_onto_injective,
  parse_hex-hardware_string,
}
use ipu_opi_plugins.IpuPlugin.Rules.{get_mac_int_value_from_bytes}

number_onto-lt-uint64 : (mac : List ℕ) → AreBytes mac → length mac ≤ 6 → number_onto 0 mac < 2 ^ 64
number_onto-lt-uint64 mac bytes h = omega (arith, number_onto-lt 0 mac bytes, powers)
  where
    powers : 256 ^ length mac ≤ 256 ^ 6
    powers = pow-le-pow_right (omega arith) h

-- The number of an address of at most 6 bytes is the number that its bytes make, the first byte
-- being the highest.
pub get_mac_int_value_from_bytes_lem :
    (mac : List ℕ)
    → AreBytes mac
    → length mac ≤ 6
    → get_mac_int_value_from_bytes mac ≡ number_onto 0 mac
unfolding get_mac_int_value_from_bytes
get_mac_int_value_from_bytes_lem mac bytes h =
    parse_hex-hardware_string mac bytes (number_onto-lt-uint64 mac bytes h)

-- Two addresses of bytes that have the same length, at most 6, and the same key text in the
-- tables that are keyed by address, are the same address.
pub mac_key_injective :
    (mac other : List ℕ)
    → AreBytes mac
    → AreBytes other
    → length mac ≤ 6
    → length mac ≡ length other
    → format_hex (get_mac_int_value_from_bytes mac)
      ≡ format_hex (get_mac_int_value_from_bytes other)
    → mac ≡ other
mac_key_injective mac other bytes bytes' short same e =
    let low = number_onto-lt-uint64 mac bytes short in
    let low' = number_onto-lt-uint64 other bytes' (omega arith) in
    let value = get_mac_int_value_from_bytes_lem mac bytes short in
    let value' = get_mac_int_value_from_bytes_lem other bytes' (omega arith) in
    (number_onto_injective 0 0 mac other bytes bytes' same (
      sym (parse_hex-format_hex _ low)
      ∙ ap parse_hex (rw (← value, ← value') e)
      ∙ parse_hex-format_hex _ low')).1
