-- ===== src/Receiver.antt =====
-- libsponge/tcp_receiver.hh and .cc: segments in, an assembled stream, acks and windows out.
pub mod Laws
pub mod Faults
mod Examples
use csed.Base.{
  ℕ, ◌+◌, ◌-◌, ◌%◌, Bool, true, false, not, ◌&&◌, ◌||◌, Option, none, some, if◌then◌else◌, u64_mod,
}
use csed.Wrapping.{WrappingInt32, unwrap, add32}
use csed.ByteStream
use csed.Reassembler
use csed.Reassembler.{Reassembler}
use csed.Segment.{TcpSegment}

pub record TcpReceiver : Type 0 where
  pub reassembler : Reassembler
  pub capacity : ℕ
  pub isn : WrappingInt32
  pub received_syn : Bool
  pub received_fin : Bool

unfoldable pub new : ℕ → TcpReceiver
new capacity = record {
  reassembler = Reassembler.new capacity;
  capacity = capacity;
  isn = 0;
  received_syn = false;
  received_fin = false;
}

-- The assignments to `isn`, `recievedSYN` and `recievedFIN`.
unfoldable pub note_flags : TcpReceiver → TcpSegment → TcpReceiver
note_flags r seg = record r {
  isn = if seg.header.syn then seg.header.seqno else r.isn;
  received_syn = r.received_syn || seg.header.syn;
  received_fin = r.received_fin || seg.header.fin;
}

-- The index at which the payload is pushed: the absolute sequence number, less 1 for the SYN if the
-- segment is not the one that carries it.
unfoldable pub push_index : TcpReceiver → TcpSegment → ℕ
push_index r seg =
    let abs_seqno = unwrap seg.header.seqno r.isn r.reassembler.output.bytes_written in
    (abs_seqno + u64_mod - (if seg.header.syn then 0 else 1)) % u64_mod

unfoldable pub segment_received : TcpReceiver → TcpSegment → TcpReceiver
unfolding note_flags push_index
segment_received r seg =
    if not r.received_syn && not seg.header.syn
    then r
    else (let r' = note_flags r seg in
        record r' {
          reassembler =
              Reassembler.push_substring r'.reassembler seg.payload (push_index r' seg)
                seg.header.fin;
        })

unfoldable pub ackno : TcpReceiver → Option WrappingInt32
ackno r =
    if r.received_syn
    then some (
        add32 (add32 (add32 r.isn r.reassembler.output.bytes_written) 1)
          (if Reassembler.empty r.reassembler && r.received_fin then 1 else 0))
    else none

unfoldable pub window_size : TcpReceiver → ℕ
window_size r = ByteStream.remaining_capacity r.reassembler.output

unfoldable pub unassembled_bytes : TcpReceiver → ℕ
unassembled_bytes r = Reassembler.unassembled_bytes r.reassembler
