-- ===== src/Arp/Examples.antt =====
-- Runs of libsponge/tcp_helpers/arp_message.cc.
use csed.Base.{◌≡◌, refl, arith, some, [], ◌∷◌, replicate}
use mathlib.Core.Option
use csed.Parser.{no_error}
use csed.Arp.{ArpMessage, opcode_request, parse, serialize, supported}
use csed.Arp.Laws.{parse-serialize}

-- A request of 10.0.0.1 for the address of 10.0.0.2.
abbrev request : ArpMessage
request = record {
  hardware_type = 1;
  protocol_type = 0x800;
  hardware_address_size = 6;
  protocol_address_size = 4;
  opcode = opcode_request;
  sender_ethernet_address = 2 ∷ 0 ∷ 0 ∷ 1 ∷ 35 ∷ 9 ∷ [];
  sender_ip_address = 167772161;
  target_ethernet_address = replicate 6 0;
  target_ip_address = 167772162;
}

abbrev blank : ArpMessage
blank = record request { opcode = 0; sender_ip_address = 0; target_ip_address = 0 }

parse-serialize_example : Option.map (parse blank) (serialize request) ≡ some (no_error, request)
unfolding supported
parse-serialize_example =
    parse-serialize blank request
      (record {
        hardware_type = omega arith;
        protocol_type = omega arith;
        hardware_address_size = omega arith;
        protocol_address_size = omega arith;
        opcode = omega arith;
        sender_length = refl;
        sender_bytes = (
          omega arith,
          (omega arith, (omega arith, (omega arith, (omega arith, (omega arith, tt))))),
        );
        sender_ip_address = omega arith;
        target_length = refl;
        target_bytes = (
          omega arith,
          (omega arith, (omega arith, (omega arith, (omega arith, (omega arith, tt))))),
        );
        target_ip_address = omega arith;
      })
      refl
