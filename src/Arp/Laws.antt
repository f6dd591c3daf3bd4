-- ===== src/Arp/Laws.antt =====
-- libsponge/tcp_helpers/arp_message.cc: messages that are written are read back.
use csed.Base.{
  ℕ, ◌<◌, ◌^◌, ◌≡◌, refl, sym, ap, ◌∙◌, false, true, not, some, List, [], ◌++◌, append_assoc,
  append-nil, arith, length, length-append, ltb, if◌then◌else◌,
}
use csed.Base.Dict.{known}
use mathlib.Core.Option
use csed.Parser.{ParseResult, no_error, unsupported, NetParser, from_buffer, u8, u16, u32}
use csed.Parser.Roundtrip.{unparse_int_lem, digits, u8_lem, u16_lem, u32_lem}
use csed.Ethernet.{EthernetAddress, read_address, write_address}
use csed.Ethernet.Laws.{AllByte, write_address_lem, read_whole}
use csed.Arp.{ArpMessage, arp_length, supported, parse_fixed, parse_addresses, parse, serialize}

-- The fields fit their widths.
pub record IsWord (m : ArpMessage) : Type 0 where
  pub hardware_type : m.hardware_type < 2 ^ 16
  pub protocol_type : m.protocol_type < 2 ^ 16
  pub hardware_address_size : m.hardware_address_size < 256
  pub protocol_address_size : m.protocol_address_size < 256
  pub opcode : m.opcode < 2 ^ 16
  pub sender_length : length m.sender_ethernet_address ≡ 6
  pub sender_bytes : AllByte m.sender_ethernet_address
  pub sender_ip_address : m.sender_ip_address < 2 ^ 32
  pub target_length : length m.target_ethernet_address ≡ 6
  pub target_bytes : AllByte m.target_ethernet_address
  pub target_ip_address : m.target_ip_address < 2 ^ 32

-- The bytes of a message.
addresses : ArpMessage → List ℕ
addresses m =
    m.sender_ethernet_address
    ++ (digits 4 m.sender_ip_address
        ++ (m.target_ethernet_address ++ (digits 4 m.target_ip_address ++ [])))

pub wire : ArpMessage → List ℕ
wire m =
    digits 2 m.hardware_type
    ++ (digits 2 m.protocol_type
        ++ (digits 1 m.hardware_address_size
            ++ (digits 1 m.protocol_address_size ++ (digits 2 m.opcode ++ addresses m))))

-- Reading the part of the fields of fixed size gives them back.
parse_fixed_lem :
    (before m : ArpMessage)
    → IsWord m
    → parse_fixed before (from_buffer (wire m)) ≡ (
      from_buffer (addresses m),
      record before {
        hardware_type = m.hardware_type;
        protocol_type = m.protocol_type;
        hardware_address_size = m.hardware_address_size;
        protocol_address_size = m.protocol_address_size;
        opcode = m.opcode;
      },
    )
unfolding parse_fixed wire
parse_fixed_lem before m w =
    ap (λ (r : NetParser × ℕ). hw r) (u16_lem m.hardware_type _ w.hardware_type)
    ∙ ap (λ (r : NetParser × ℕ). pr m.hardware_type r) (u16_lem m.protocol_type _ w.protocol_type)
    ∙ ap (λ (r : NetParser × ℕ). hs m.hardware_type m.protocol_type r)
        (u8_lem m.hardware_address_size _ w.hardware_address_size)
    ∙ ap (λ (r : NetParser × ℕ). ps m.hardware_type m.protocol_type m.hardware_address_size r)
        (u8_lem m.protocol_address_size _ w.protocol_address_size)
    ∙ ap
        (λ (r : NetParser × ℕ).
          op m.hardware_type m.protocol_type m.hardware_address_size m.protocol_address_size r)
        (u16_lem m.opcode (addresses m) w.opcode)
  where
    op : ℕ → ℕ → ℕ → ℕ → NetParser × ℕ → NetParser × ArpMessage
    op a b c d r = (
      r.0,
      record before {
        hardware_type = a;
        protocol_type = b;
        hardware_address_size = c;
        protocol_address_size = d;
        opcode = r.1;
      },
    )

    ps : ℕ → ℕ → ℕ → NetParser × ℕ → NetParser × ArpMessage
    ps a b c r = op a b c r.1 (u16 r.0)

    hs : ℕ → ℕ → NetParser × ℕ → NetParser × ArpMessage
    hs a b r = ps a b r.1 (u8 r.0)

    pr : ℕ → NetParser × ℕ → NetParser × ArpMessage
    pr a r = hs a r.1 (u8 r.0)

    hw : NetParser × ℕ → NetParser × ArpMessage
    hw r = pr r.1 (u16 r.0)

parse_addresses_lem :
    (before m : ArpMessage)
    → IsWord m
    → parse_addresses before (from_buffer (addresses m)) ≡ (
      from_buffer [],
      record before {
        sender_ethernet_address = m.sender_ethernet_address;
        sender_ip_address = m.sender_ip_address;
        target_ethernet_address = m.target_ethernet_address;
        target_ip_address = m.target_ip_address;
      },
    )
unfolding parse_addresses addresses
parse_addresses_lem before m w =
    ap (λ (r : NetParser × List ℕ). se r)
      (read_whole m.sender_ethernet_address _ w.sender_bytes w.sender_length)
    ∙ ap (λ (r : NetParser × ℕ). si m.sender_ethernet_address r)
        (u32_lem m.sender_ip_address _ w.sender_ip_address)
    ∙ ap (λ (r : NetParser × List ℕ). te m.sender_ethernet_address m.sender_ip_address r)
        (read_whole m.target_ethernet_address _ w.target_bytes w.target_length)
    ∙ ap
        (λ (r : NetParser × ℕ).
          ti m.sender_ethernet_address m.sender_ip_address m.target_ethernet_address r)
        (u32_lem m.target_ip_address [] w.target_ip_address)
  where
    ti : List ℕ → ℕ → List ℕ → NetParser × ℕ → NetParser × ArpMessage
    ti a b c r = (
      r.0,
      record before {
        sender_ethernet_address = a;
        sender_ip_address = b;
        target_ethernet_address = c;
        target_ip_address = r.1;
      },
    )

    te : List ℕ → ℕ → NetParser × List ℕ → NetParser × ArpMessage
    te a b r = ti a b r.1 (u32 r.0)

    si : List ℕ → NetParser × ℕ → NetParser × ArpMessage
    si a r = te a r.1 (read_address 6 r.0)

    se : NetParser × List ℕ → NetParser × ArpMessage
    se r = si r.1 (u32 r.0)

write_lem :
    (s : List ℕ) (bs : EthernetAddress) (tail : List ℕ)
    → AllByte bs
    → write_address s bs ++ tail ≡ s ++ (bs ++ tail)
write_lem s bs tail h = ap (λ xs. xs ++ tail) (write_address_lem s bs h) ∙ append_assoc s bs tail

pub serialize_lem : (m : ArpMessage) → IsWord m → supported m ≡ true → serialize m ≡ some (wire m)
unfolding serialize wire addresses
serialize_lem m w h = rw h (
    ap some (
      sym (append-nil _)
      ∙ unparse_int_lem 4 _ m.target_ip_address []
      ∙ write_lem _ m.target_ethernet_address _ w.target_bytes
      ∙ unparse_int_lem 4 _ m.sender_ip_address _
      ∙ write_lem _ m.sender_ethernet_address _ w.sender_bytes
      ∙ unparse_int_lem 2 _ m.opcode _
      ∙ unparse_int_lem 1 _ m.protocol_address_size _
      ∙ unparse_int_lem 1 _ m.hardware_address_size _
      ∙ unparse_int_lem 2 _ m.protocol_type _
      ∙ unparse_int_lem 2 [] m.hardware_type _))

pub serialize-supported : (m : ArpMessage) → supported m ≡ true → known (serialize m) ≡ true
unfolding serialize
serialize-supported m h = rw h refl

length-wire : (m : ArpMessage) → IsWord m → length (wire m) ≡ arp_length
unfolding wire addresses digits
length-wire m w =
    let target = m.target_ethernet_address ++ (digits 4 m.target_ip_address ++ []) in
    omega (
      arith,
      length-append m.sender_ethernet_address (digits 4 m.sender_ip_address ++ target),
      length-append m.target_ethernet_address (digits 4 m.target_ip_address ++ []),
      w.sender_length,
      w.target_length,
    )

-- The fields of fixed size of one message, the addresses of another.
fixed_of : ArpMessage → ArpMessage → ArpMessage
fixed_of before m = record before {
  hardware_type = m.hardware_type;
  protocol_type = m.protocol_type;
  hardware_address_size = m.hardware_address_size;
  protocol_address_size = m.protocol_address_size;
  opcode = m.opcode;
}

supported_fixed : (before m : ArpMessage) → supported (fixed_of before m) ≡ supported m
unfolding supported fixed_of
supported_fixed before m = refl

pub parse_lem :
    (before m : ArpMessage) → IsWord m → supported m ≡ true → parse before (wire m) ≡ (no_error, m)
unfolding parse fixed_of
parse_lem before m w h =
    let long : ltb (length (wire m)) arp_length ≡ false = ground (arith, length-wire m w) in
    rw long (
      ap (λ (r : NetParser × ArpMessage). finish r.1 (parse_addresses r.1 r.0))
        (parse_fixed_lem before m w)
      ∙ ap (finish (fixed_of before m)) (parse_addresses_lem (fixed_of before m) m w)
      ∙ ap (λ b. if not b then (unsupported, fixed_of before m) else (no_error, m))
          (supported_fixed before m ∙ h))
  where
    finish : ArpMessage → NetParser × ArpMessage → ParseResult × ArpMessage
    finish fixed r = if not (supported fixed) then (unsupported, fixed) else (r.0.error, r.1)

-- For a supported message whose fields fit their widths, `serialize` throws nothing, and `parse` of
-- its bytes gives back the message without an error, whatever the message object held before.
pub parse-serialize :
    (before m : ArpMessage)
    → IsWord m
    → supported m ≡ true
    → Option.map (parse before) (serialize m) ≡ some (no_error, m)
parse-serialize before m w h =
    ap (Option.map (parse before)) (serialize_lem m w h) ∙ ap some (parse_lem before m w h)
