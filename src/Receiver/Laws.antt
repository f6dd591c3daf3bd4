-- ===== src/Receiver/Laws.antt =====
-- What `TCPReceiver` does with a segment, and what it acknowledges.
use csed.Base.{
  ℕ, ◌+◌, ◌-◌, ◌%◌, ◌^◌, ◌<◌, ◌≡◌, refl, ap, ◌∙◌, true, false, not, ◌&&◌, ◌||◌, none, some, arith,
  u32_mod, u64_mod, if◌then◌else◌,
}
use csed.Wrapping.{WrappingInt32, wrap, unwrap, add32}
use csed.Wrapping.Laws.{dist, unwrap-wrap}
use csed.ByteStream.Inv.{remaining_capacity_lem}
use csed.Reassembler
use csed.Reassembler.Run.{Good, IsHonest, push-Good}
use csed.Segment.{TcpSegment}
use csed.Receiver.{TcpReceiver, note_flags, push_index, segment_received, ackno, window_size}

-- Without a SYN noted before or in the segment, `segment_received` changes nothing.
pub segment_received_before_syn :
    (r : TcpReceiver) (seg : TcpSegment)
    → r.received_syn ≡ false
    → seg.header.syn ≡ false
    → segment_received r seg ≡ r
unfolding segment_received
segment_received_before_syn r seg h k = rw (h, k) refl

-- The initial sequence number that applies to a segment: its own, if it carries a SYN.
abbrev pub start : TcpReceiver → TcpSegment → WrappingInt32
start r seg = if seg.header.syn then seg.header.seqno else r.isn

-- The absolute sequence number of a segment whose payload begins at place `index` of the stream.
abbrev pub absolute : TcpSegment → ℕ → ℕ
absolute seg index = index + (if seg.header.syn then 0 else 1)

-- The segment's payload begins at `index` of the stream, near the bytes that went out.
pub record IsAt (r : TcpReceiver) (seg : TcpSegment) (index : ℕ) : Type 0 where
  pub number : seg.header.seqno ≡ wrap (absolute seg index) (start r seg)
  pub near : dist (absolute seg index) r.reassembler.output.bytes_written < 2 ^ 31
  pub accepted : (r.received_syn || seg.header.syn) ≡ true

pub push_index_lem :
    (r : TcpReceiver) (seg : TcpSegment) (index : ℕ)
    → start r seg < u32_mod
    → r.reassembler.output.bytes_written < 2 ^ 32
    → IsAt r seg index
    → push_index (note_flags r seg) seg ≡ index
unfolding push_index note_flags
push_index_lem r seg index hi small at =
    let e =
      ap (λ n. unwrap n (start r seg) r.reassembler.output.bytes_written) at.number
      ∙ unwrap-wrap (absolute seg index) (start r seg) r.reassembler.output.bytes_written hi
          (omega arith) at.near in
    ap (λ a. (a + u64_mod - (if seg.header.syn then 0 else 1)) % u64_mod) e
    ∙ ground (arith, at.near)

-- A receiver with a 32-bit initial number and fewer than 2^32 bytes put out, on a segment with the
-- SYN noted before or in it, whose number is that of the place `index` of the stream and less than
-- 2^31 away from the bytes put out so far, pushes the payload exactly at `index`, with the FIN as
-- end mark, and notes the initial number, the SYN and the FIN.
pub segment_received_push :
    (r : TcpReceiver) (seg : TcpSegment) (index : ℕ)
    → start r seg < u32_mod
    → r.reassembler.output.bytes_written < 2 ^ 32
    → IsAt r seg index
    → segment_received r seg ≡ record r {
      isn = start r seg;
      received_syn = true;
      received_fin = r.received_fin || seg.header.fin;
      reassembler = Reassembler.push_substring r.reassembler seg.payload index seg.header.fin;
    }
unfolding segment_received note_flags
segment_received_push r seg index hi small at =
    let taken : (not r.received_syn && not seg.header.syn) ≡ false = ground (arith, at.accepted) in
    let p = push_index_lem r seg index hi small at in
    rw taken (λ i. record {
      reassembler = Reassembler.push_substring r.reassembler seg.payload (p i) seg.header.fin;
      capacity = r.capacity;
      isn = start r seg;
      received_syn = at.accepted i;
      received_fin = r.received_fin || seg.header.fin;
    })

-- The acknowledgment is there exactly from the SYN on. It is the relative number of the place after
-- the bytes put out so far and the SYN; a FIN counts once it came and nothing is left stored.
pub ackno_lem :
    (r : TcpReceiver)
    → ackno r ≡ (
        if r.received_syn
        then some (
            wrap
              (r.reassembler.output.bytes_written
                + 1
                + (if Reassembler.empty r.reassembler && r.received_fin then 1 else 0))
              r.isn)
        else none)
unfolding ackno add32 wrap
ackno_lem r = ap (λ a. if r.received_syn then some a else none) (omega arith)

-- For a segment as in `IsAt` that is an honest part of the stream, the reassembler stays `Good`:
-- valid, holding only bytes of the stream at their places, never beyond the end, and ended only
-- when all is put out.
pub segment_received-Good :
    (stream : ℕ → ℕ) (total : ℕ) (r : TcpReceiver) (seg : TcpSegment) (index : ℕ)
    → start r seg < u32_mod
    → IsAt r seg index
    → Good stream total r.reassembler
    → IsHonest stream total seg.payload index seg.header.fin
    → Good stream total (segment_received r seg).reassembler
segment_received-Good stream total r seg index hi at g h =
    rw (segment_received_push r seg index hi (omega (arith, g.below, g.short)) at)
      (push-Good stream total r.reassembler seg.payload index seg.header.fin g h)

-- In a `Good` state the bytes put out and the window make up the bytes that the reader has taken
-- and the capacity: the right edge of the window depends on the reader alone.
pub window_size_lem :
    (stream : ℕ → ℕ) (total : ℕ) (r : TcpReceiver)
    → Good stream total r.reassembler
    → r.reassembler.output.bytes_written + window_size r
      ≡ r.reassembler.output.bytes_read + r.reassembler.capacity
unfolding window_size
window_size_lem stream total r g =
    let o = g.valid.out in
    omega (
      arith,
      remaining_capacity_lem r.reassembler.output o,
      o.fits,
      g.valid.same_capacity,
      g.valid.unwrapped,
    )
