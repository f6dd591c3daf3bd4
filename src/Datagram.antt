-- ===== src/Datagram.antt =====
-- `IPv4Datagram` of libsponge/tcp_helpers/ipv4_datagram.hh and .cc. A `BufferList` is the list of the views
-- of its buffers, and its size is the number of all their bytes (Buffer/Laws).
pub mod Roundtrip
pub mod Faults
mod Examples
use csed.Base.{
  ℕ, Bool, true, false, not, Option, none, some, List, [], ◌∷◌, ◌==◌, if◌then◌else◌, length,
}
use csed.Checksum
use csed.Parser.{ParseResult, packet_too_short, NetParser, from_buffer, append_to}
use csed.Buffer.Views.{flat}
use csed.Ipv4
use csed.Ipv4.{Ipv4Header, payload_length}

pub record Ipv4Datagram : Type 0 where
  pub header : Ipv4Header
  pub payload : List (List ℕ)

-- The result of the header's `parse` is dropped.
unfoldable pub parse : Ipv4Datagram → List ℕ → ParseResult × Ipv4Datagram
parse d buffer =
    let (result, h, p) = Ipv4.parse d.header (from_buffer buffer) in
    (
      if not (length p.buffer == payload_length h) then packet_too_short else p.error,
      record { header = h; payload = p.buffer ∷ [] },
    )

-- `header_out.cksum = check.value()`, with the checksum of the bytes that are there.
unfoldable pub sealed : Ipv4Header → List ℕ → Ipv4Header
sealed h bytes = record h { cksum = Checksum.value (Checksum.add (Checksum.new 0) bytes) }

-- `none` stands for the exceptions of the header.
unfoldable pub serialize_sealed : Ipv4Datagram → Option (List ℕ) → Option (List (List ℕ))
unfolding sealed append_to
serialize_sealed d none = none
serialize_sealed d (some bytes) =
    append_to (Ipv4.serialize (sealed (record (d.header) { cksum = 0 }) bytes)) d.payload

unfoldable pub serialize : Ipv4Datagram → Option (List (List ℕ))
unfolding serialize_sealed
serialize d =
    if not (length (flat d.payload) == payload_length d.header)
    then none
    else serialize_sealed d (Ipv4.serialize (record (d.header) { cksum = 0 }))
