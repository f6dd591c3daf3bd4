-- ===== src/Sender/Chain.antt =====
-- The segments in flight of libsponge/tcp_sender.cc: they follow one another without a gap, up to
-- the next sequence number.
use csed.Base.{
  ℕ, ◌+◌, ◌-◌, ◌%◌, ◌^◌, ◌≤◌, ◌<◌, ◌≡◌, refl, ap, subst, true, false, List, [], ◌∷◌, ◌++◌, arith,
  ltb, u64_mod, u32_mod,
}
use csed.Wrapping.{WrappingInt32, wrap}
use csed.ByteStream.Inv
use csed.Segment.{TcpSegment, length_in_sequence_space}
use csed.Sender.{OrderedSegment, TcpSender, push_in_flight, stamp, send_segment, is_empty}

-- From `a` to `b`: each segment stands where the one before it ended, takes up some sequence numbers,
-- and carries the relative number of its place.
abbrev pub Chain : WrappingInt32 → ℕ → List OrderedSegment → ℕ → Type 0
Chain isn a [] b = a ≡ b
Chain isn a (t ∷ ts) b =
    (t.abs_seqno ≡ a)
    × (0 < length_in_sequence_space t.seg)
    × (t.seg.header.seqno ≡ wrap a isn)
    × Chain isn (a + length_in_sequence_space t.seg) ts b

pub Chain-le : (isn a : ℕ) (ts : List OrderedSegment) (b : ℕ) → Chain isn a ts b → a ≤ b
Chain-le isn a [] b c = omega arith
Chain-le isn a (t ∷ ts) b c =
    omega (arith, Chain-le isn (a + length_in_sequence_space t.seg) ts b c.3)

-- A segment at the end of the chain goes behind all that are in flight.
pub push_in_flight_end :
    (isn a : ℕ) (ts : List OrderedSegment) (b : ℕ) (t : OrderedSegment)
    → Chain isn a ts b
    → t.abs_seqno ≡ b
    → push_in_flight t ts ≡ ts ++ (t ∷ [])
unfolding push_in_flight
push_in_flight_end isn a [] b t c e = refl
push_in_flight_end isn a (u ∷ us) b t c e =
    let le = Chain-le isn (a + length_in_sequence_space u.seg) us b c.3 in
    let later : ltb t.abs_seqno u.abs_seqno ≡ false = ground arith in
    rw later (ap (◌∷◌ u) (push_in_flight_end isn (a + length_in_sequence_space u.seg) us b t c.3 e))

pub Chain-append :
    (isn a : ℕ) (ts : List OrderedSegment) (b : ℕ) (t : OrderedSegment) (d : ℕ)
    → Chain isn a ts b
    → t.abs_seqno ≡ b
    → 0 < length_in_sequence_space t.seg
    → t.seg.header.seqno ≡ wrap b isn
    → d ≡ b + length_in_sequence_space t.seg
    → Chain isn a (ts ++ (t ∷ [])) d
Chain-append isn a [] b t d c e l w q = (omega arith, l, rw c w, omega arith)
Chain-append isn a (u ∷ us) b t d c e l w q =
    (c.0, c.1, c.2, Chain-append isn (a + length_in_sequence_space u.seg) us b t d c.3 e l w q)

pub record IsValid (s : TcpSender) : Type 0 where
  pub stream_valid : Inv.IsValid s.stream
  pub counted : s.bytes_in_flight ≤ s.next_seqno
  -- What is in flight reaches from the first number not fully acknowledged to the next one.
  pub chain : Chain s.isn (s.next_seqno - s.bytes_in_flight) s.segments_in_flight s.next_seqno
  pub acked : s.checkpoint ≤ s.next_seqno
  pub unacked : s.next_seqno ≤ s.checkpoint + s.bytes_in_flight
  pub running : is_empty s.segments_in_flight ≡ false → s.is_timer_running ≡ true
  pub started : s.syn ≡ false → s.next_seqno ≡ 0

-- The sequence numbers are far from 2^63: what one call can send does not reach it.
abbrev pub IsRoomy : TcpSender → Type 0
IsRoomy s = s.next_seqno + u32_mod + 2 < 2 ^ 63

pub record Extended (s : TcpSender) (seg : TcpSegment) (q : TcpSender) : Type 0 where
  pub chain : Chain q.isn (q.next_seqno - q.bytes_in_flight) q.segments_in_flight q.next_seqno
  pub counted : q.bytes_in_flight ≤ q.next_seqno
  pub next : q.next_seqno ≡ s.next_seqno + length_in_sequence_space seg
  pub flying : q.bytes_in_flight ≡ s.bytes_in_flight + length_in_sequence_space seg
  pub out : q.segments_out ≡ s.segments_out ++ (stamp s seg ∷ [])
  pub in_flight :
      q.segments_in_flight
      ≡ s.segments_in_flight ++ (record { abs_seqno = s.next_seqno; seg = stamp s seg } ∷ [])

length-stamp :
    (s : TcpSender) (seg : TcpSegment)
    → length_in_sequence_space (stamp s seg) ≡ length_in_sequence_space seg
unfolding stamp length_in_sequence_space
length-stamp s seg = refl

seqno-stamp :
    (s : TcpSender) (seg : TcpSegment) → (stamp s seg).header.seqno ≡ wrap s.next_seqno s.isn
unfolding stamp
seqno-stamp s seg = refl

-- `_send_segment` puts the segment at the end of the chain.
pub send_segment-Extended :
    (s : TcpSender) (seg : TcpSegment)
    → s.bytes_in_flight ≤ s.next_seqno
    → Chain s.isn (s.next_seqno - s.bytes_in_flight) s.segments_in_flight s.next_seqno
    → 0 < length_in_sequence_space seg
    → s.next_seqno + length_in_sequence_space seg < u64_mod
    → Extended s seg (send_segment s seg)
unfolding send_segment
send_segment-Extended s seg le c pos small =
    let len = length-stamp s seg in
    let base = s.next_seqno - s.bytes_in_flight in
    let t : OrderedSegment = record { abs_seqno = s.next_seqno; seg = stamp s seg } in
    let e = push_in_flight_end s.isn base s.segments_in_flight s.next_seqno t c refl in
    let next : (s.next_seqno + length_in_sequence_space (stamp s seg)) % u64_mod
        ≡ s.next_seqno + length_in_sequence_space seg =
      omega arith in
    let flying : (s.bytes_in_flight + length_in_sequence_space (stamp s seg)) % u64_mod
        ≡ s.bytes_in_flight + length_in_sequence_space seg =
      omega arith in
    record {
      chain =
          subst
            (λ a.
              Chain s.isn a (push_in_flight t s.segments_in_flight)
                ((s.next_seqno + length_in_sequence_space (stamp s seg)) % u64_mod))
            {x = base} (omega arith)
            (rw e (
              Chain-append s.isn base s.segments_in_flight s.next_seqno t _ c refl (omega arith)
                (seqno-stamp s seg) (omega arith)));
      counted = omega arith;
      next = next;
      flying = flying;
      out = refl;
      in_flight = e;
    }
