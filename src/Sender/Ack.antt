-- ===== src/Sender/Ack.antt =====
-- `TCPSender::ack_received`: what an acknowledgment takes out of flight, and what it leaves alone.
use csed.Base.{
  ℕ, ◌+◌, ◌-◌, ◌%◌, ◌^◌, ◌≤◌, ◌<◌, ◌≡◌, refl, ap, subst, true, ◌&&◌, List, [], ◌∷◌, ◌++◌, arith,
  ltb, leb, if◌then◌else◌, u64_mod, u32_mod, Bool-cases, inl, inr,
}
use csed.Wrapping.{wrap}
use csed.Wrapping.Laws.{dist, IsSmall, unwrap-wrap}
use csed.Segment.{length_in_sequence_space}
use csed.Sender.{
  OrderedSegment, TcpSender, pop_acked, is_empty, take_ack, ack_received, fill_window,
}
use csed.Sender.Chain.{Chain, Chain-le, IsValid}

-- Where a segment in flight ends.
abbrev pub end_of : OrderedSegment → ℕ
end_of t = t.abs_seqno + length_in_sequence_space t.seg

abbrev pub AllAcked : ℕ → List OrderedSegment → Type 0
AllAcked ackno [] = Unit {0}
AllAcked ackno (t ∷ ts) = (end_of t ≤ ackno) × AllAcked ackno ts

abbrev pub AllBeyond : ℕ → List OrderedSegment → Type 0
AllBeyond ackno [] = Unit {0}
AllBeyond ackno (t ∷ ts) = (ackno < end_of t) × AllBeyond ackno ts

-- What the loop over the segments in flight leaves: exactly those that end beyond the number.
pub record Popped (isn ackno next : ℕ) (ts : List OrderedSegment) (out : List OrderedSegment × ℕ)
    : Type 0 where
  pub gone : List OrderedSegment
  pub split : ts ≡ gone ++ out.0
  pub acked : AllAcked ackno gone
  pub beyond : AllBeyond ackno out.0
  pub counted : out.1 ≤ next
  pub chain : Chain isn (next - out.1) out.0 next
  pub unacked : next ≤ ackno + out.1

all_beyond :
    (isn a ackno : ℕ) (ts : List OrderedSegment) (next : ℕ)
    → ackno ≤ a
    → Chain isn a ts next
    → AllBeyond ackno ts
all_beyond isn a ackno [] next h c = tt
all_beyond isn a ackno (t ∷ ts) next h c = (
  omega (arith, c.0, c.1),
  all_beyond isn (a + length_in_sequence_space t.seg) ackno ts next (omega arith) c.3,
)

pub pop_acked-Popped :
    (isn a ackno next : ℕ) (ts : List OrderedSegment) (bytes : ℕ)
    → next < 2 ^ 63
    → a + bytes ≡ next
    → a ≤ ackno
    → ackno ≤ next
    → Chain isn a ts next
    → Popped isn ackno next ts (pop_acked ackno ts bytes)
unfolding pop_acked
pop_acked-Popped isn a ackno next [] bytes small e lo hi c = record {
  gone = [];
  split = refl;
  acked = tt;
  beyond = tt;
  counted = omega arith;
  chain = omega arith;
  unacked = omega arith;
}
pop_acked-Popped isn a ackno next (t ∷ ts) bytes small e lo hi c =
    let len = length_in_sequence_space t.seg in
    let le = Chain-le isn (a + len) ts next c.3 in
    elim (Bool-cases (leb ((t.abs_seqno + len) % u64_mod) ackno)) [
      | inl covered ↦
          let here : end_of t ≤ ackno = ground (arith, c.0, le) in
          let ih =
            pop_acked-Popped isn (a + len) ackno next ts ((bytes + u64_mod - len) % u64_mod) small
              (omega arith) (omega (arith, c.0)) hi c.3 in
          rw covered (record {
            gone = t ∷ ih.gone;
            split = ap (◌∷◌ t) ih.split;
            acked = (here, ih.acked);
            beyond = ih.beyond;
            counted = ih.counted;
            chain = ih.chain;
            unacked = ih.unacked;
          })
      | inr open' ↦
          let here : ackno < end_of t = ground (arith, c.0, le) in
          rw open' (record {
            gone = [];
            split = refl;
            acked = tt;
            beyond = (here, all_beyond isn (a + len) ackno ts next (omega (arith, c.0)) c.3);
            counted = omega arith;
            chain = subst (λ b. Chain isn b (t ∷ ts) next) {x = a} (omega arith) c;
            unacked = omega arith;
          })
    ]

-- An acknowledgment of `abs`, new and within what was sent, takes out of flight exactly the segments
-- that end at or before `abs`, keeps the invariant, moves the checkpoint there, resets the timeout and
-- the count of retransmissions, and restarts the timer if something is left in flight.
pub record Acked (s : TcpSender) (abs : ℕ) (q : TcpSender) : Type 0 where
  pub valid : IsValid q
  pub gone : List OrderedSegment
  pub split : s.segments_in_flight ≡ gone ++ q.segments_in_flight
  pub acked : AllAcked abs gone
  pub beyond : AllBeyond abs q.segments_in_flight
  pub checkpoint : q.checkpoint ≡ abs
  pub timeout : q.rto ≡ s.initial_retransmission_timeout
  pub no_retransmissions : q.n_consecutive_retransmissions ≡ 0
  pub time : q.time_spent ≡ (if is_empty q.segments_in_flight then s.time_spent else 0)
  pub timer :
      q.is_timer_running ≡ (if is_empty q.segments_in_flight then s.is_timer_running else true)
  pub same_next : q.next_seqno ≡ s.next_seqno
  pub same_out : q.segments_out ≡ s.segments_out

-- For a valid sender whose next sequence number is below 2^63, an acknowledgment of `abs`, above
-- the checkpoint and at most the next sequence number, takes out of flight exactly the segments
-- that end at or before `abs`, keeps the invariant, moves the checkpoint to `abs`, resets the
-- timeout and the count of retransmissions, restarts the timer if something is left in flight, and
-- sends nothing.
pub take_ack-Acked :
    (s : TcpSender) (abs : ℕ)
    → IsValid s
    → s.next_seqno < 2 ^ 63
    → s.checkpoint < abs
    → abs ≤ s.next_seqno
    → Acked s abs (take_ack s abs)
unfolding take_ack
take_ack-Acked s abs v small new old =
    let p =
      pop_acked-Popped s.isn (s.next_seqno - s.bytes_in_flight) abs s.next_seqno
        s.segments_in_flight s.bytes_in_flight small (omega (arith, v.counted))
        (omega (arith, v.unacked)) old v.chain in
    record {
      valid = record {
        stream_valid = v.stream_valid;
        counted = p.counted;
        chain = p.chain;
        acked = old;
        unacked = p.unacked;
        running = λ e. rw e refl;
        started = v.started;
      };
      gone = p.gone;
      split = p.split;
      acked = p.acked;
      beyond = p.beyond;
      checkpoint = refl;
      timeout = refl;
      no_retransmissions = refl;
      time = refl;
      timer = refl;
      same_next = refl;
      same_out = refl;
    }

nothing_beyond :
    (isn a : ℕ) (ts : List OrderedSegment) (next : ℕ)
    → Chain isn a ts next
    → AllBeyond next ts
    → (ts ≡ []) × (a ≡ next)
nothing_beyond isn a [] next c b = (refl, c)
nothing_beyond isn a (t ∷ ts) next c b =
    absurd (omega (arith, c.0, b.0, Chain-le isn (a + length_in_sequence_space t.seg) ts next c.3))

-- For a valid sender whose next sequence number is below 2^63 and above the checkpoint, an
-- acknowledgment of all that was sent leaves nothing in flight.
pub take_ack_all :
    (s : TcpSender)
    → IsValid s
    → s.next_seqno < 2 ^ 63
    → s.checkpoint < s.next_seqno
    → let q = take_ack s s.next_seqno in (q.segments_in_flight ≡ []) × (q.bytes_in_flight ≡ 0)
take_ack_all s v small new =
    let a = take_ack-Acked s s.next_seqno v small new (omega arith) in
    let q = take_ack s s.next_seqno in
    let none' =
      nothing_beyond q.isn (q.next_seqno - q.bytes_in_flight) q.segments_in_flight q.next_seqno
        a.valid.chain (rw a.same_next a.beyond) in
    (none'.0, omega (arith, none'.1, a.valid.counted, a.same_next))

-- For a checkpoint of at most 2^63 - 2^31 and an absolute number less than 2^31 away from it,
-- `ack_received` of its relative number sets the window, and if the number is above the checkpoint
-- and at most the next sequence number it also takes the acknowledgment of that number and fills
-- the window; otherwise it does nothing more.
pub ack_received_cases :
    (s : TcpSender) (abs window_size : ℕ)
    → s.isn < u32_mod
    → IsSmall s.checkpoint
    → dist abs s.checkpoint < 2 ^ 31
    → let s' = record s { rwnd = window_size } in
      ack_received s (wrap abs s.isn) window_size
      ≡ (if ltb s.checkpoint abs && leb abs s.next_seqno then fill_window (take_ack s' abs) else s')
unfolding ack_received
ack_received_cases s abs window_size hi small near =
    rw (unwrap-wrap abs s.isn s.checkpoint hi small near) (ground arith)
