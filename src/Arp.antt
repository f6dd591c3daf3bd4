-- ===== src/Arp.antt =====
-- libsponge/tcp_helpers/arp_message.hh and .cc.
pub mod Laws
mod Examples
use csed.Base.{
  ℕ, Bool, ◌&&◌, ◌||◌, not, Option, none, some, List, [], ltb, ◌==◌, if◌then◌else◌, length,
}
use csed.Parser.{
  ParseResult, packet_too_short, unsupported, NetParser, from_buffer, u8, u16, u32, unparse_int,
}
use csed.Ethernet.{EthernetAddress, read_address, write_address}

pub record ArpMessage : Type 0 where
  pub hardware_type : ℕ
  pub protocol_type : ℕ
  pub hardware_address_size : ℕ
  pub protocol_address_size : ℕ
  pub opcode : ℕ
  pub sender_ethernet_address : EthernetAddress
  pub sender_ip_address : ℕ
  pub target_ethernet_address : EthernetAddress
  pub target_ip_address : ℕ

abbrev pub arp_length : ℕ
arp_length = 28

abbrev pub type_ethernet : ℕ
type_ethernet = 1

abbrev pub type_ipv4 : ℕ
type_ipv4 = 0x800

abbrev pub opcode_request : ℕ
opcode_request = 1

abbrev pub opcode_reply : ℕ
opcode_reply = 2

-- The sizes of an Ethernet and of an IPv4 address are 6 and 4.
unfoldable pub supported : ArpMessage → Bool
supported m =
    (m.hardware_type == type_ethernet)
    && (m.protocol_type == type_ipv4)
    && (m.hardware_address_size == 6)
    && (m.protocol_address_size == 4)
    && ((m.opcode == opcode_request) || (m.opcode == opcode_reply))

-- The part of `parse` up to the test of `supported`.
unfoldable pub parse_fixed : ArpMessage → NetParser → NetParser × ArpMessage
parse_fixed m p =
    let (p1, hardware_type) = u16 p in
    let (p2, protocol_type) = u16 p1 in
    let (p3, hardware_address_size) = u8 p2 in
    let (p4, protocol_address_size) = u8 p3 in
    let (p5, opcode) = u16 p4 in
    (
      p5,
      record m {
        hardware_type = hardware_type;
        protocol_type = protocol_type;
        hardware_address_size = hardware_address_size;
        protocol_address_size = protocol_address_size;
        opcode = opcode;
      },
    )

-- The part after it: the sender's and the target's addresses.
unfoldable pub parse_addresses : ArpMessage → NetParser → NetParser × ArpMessage
parse_addresses m p =
    let (p1, sender_ethernet_address) = read_address 6 p in
    let (p2, sender_ip_address) = u32 p1 in
    let (p3, target_ethernet_address) = read_address 6 p2 in
    let (p4, target_ip_address) = u32 p3 in
    (
      p4,
      record m {
        sender_ethernet_address = sender_ethernet_address;
        sender_ip_address = sender_ip_address;
        target_ethernet_address = target_ethernet_address;
        target_ip_address = target_ip_address;
      },
    )

-- The result and the message that it leaves.
unfoldable pub parse : ArpMessage → List ℕ → ParseResult × ArpMessage
unfolding parse_fixed supported parse_addresses
parse m buffer =
    let (p, fixed) = parse_fixed m (from_buffer buffer) in
    let (q, whole) = parse_addresses fixed p in
    if ltb (length buffer) arp_length
    then (packet_too_short, m)
    else (if not (supported fixed) then (unsupported, fixed) else (q.error, whole))

-- `none` is the exception.
unfoldable pub serialize : ArpMessage → Option (List ℕ)
unfolding supported
serialize m =
    let fixed =
      unparse_int 2
        (unparse_int 1
          (unparse_int 1 (unparse_int 2 (unparse_int 2 [] m.hardware_type) m.protocol_type)
            m.hardware_address_size)
          m.protocol_address_size)
        m.opcode in
    let sender =
      unparse_int 4 (write_address fixed m.sender_ethernet_address) m.sender_ip_address in
    let whole =
      unparse_int 4 (write_address sender m.target_ethernet_address) m.target_ip_address in
    if not (supported m) then none else some whole
