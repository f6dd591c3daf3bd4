-- ===== src/Sender.antt =====
-- libsponge/tcp_sender.hh and .cc, with the limits of libsponge/tcp_helpers/tcp_config.hh.
-- A `std::queue` is a list, front first. The priority queue of the segments in flight is a list in
-- the order in which its `top` and `pop` take them, by `_abs_seqno`, lowest first.
pub mod Chain
pub mod Grows
pub mod Fill
pub mod Window
pub mod Ack
pub mod Timer
pub mod Faults
mod Examples
use csed.Base.{
  ℕ, zero, suc, ◌+◌, ◌-◌, ◌*◌, ◌%◌, Bool, true, false, not, ◌&&◌, Option, none, some, List, [], ◌∷◌,
  ◌++◌, ltb, leb, if◌then◌else◌, u32_mod, u64_mod,
}
use csed.Wrapping.{WrappingInt32, wrap, unwrap}
use csed.ByteStream
use csed.ByteStream.{ByteStream}
use csed.Segment.{TcpSegment, TcpHeader, default_segment, default_header, length_in_sequence_space}

-- `TCPConfig::MAX_PAYLOAD_SIZE`.
abbrev pub max_payload_size : ℕ
max_payload_size = 1000

pub record OrderedSegment : Type 0 where
  pub abs_seqno : ℕ
  pub seg : TcpSegment

pub record TcpSender : Type 0 where
  pub isn : WrappingInt32
  pub segments_out : List TcpSegment
  pub initial_retransmission_timeout : ℕ
  pub stream : ByteStream
  pub next_seqno : ℕ
  pub segments_in_flight : List OrderedSegment
  pub syn : Bool
  pub fin : Bool
  pub is_timer_running : Bool
  pub time_spent : ℕ
  pub rwnd : ℕ
  pub bytes_in_flight : ℕ
  pub checkpoint : ℕ
  pub n_consecutive_retransmissions : ℕ
  pub rto : ℕ

-- `fixed_isn.value_or(WrappingInt32{random_device()()})`, the random number as an argument.
unfoldable pub value_or : Option WrappingInt32 → WrappingInt32 → WrappingInt32
value_or (some n) random = n
value_or none random = random

unfoldable pub new : ℕ → ℕ → Option WrappingInt32 → WrappingInt32 → TcpSender
unfolding value_or
new capacity retx_timeout fixed_isn random = record {
  isn = value_or fixed_isn random;
  segments_out = [];
  initial_retransmission_timeout = retx_timeout;
  stream = ByteStream.new capacity;
  next_seqno = 0;
  segments_in_flight = [];
  syn = false;
  fin = false;
  is_timer_running = false;
  time_spent = 0;
  rwnd = 1;
  bytes_in_flight = 0;
  checkpoint = 0;
  n_consecutive_retransmissions = 0;
  rto = 0;
}

-- `_segments_in_flight.push`.
unfoldable pub push_in_flight : OrderedSegment → List OrderedSegment → List OrderedSegment
push_in_flight t [] = t ∷ []
push_in_flight t (u ∷ us) =
    if ltb t.abs_seqno u.abs_seqno then t ∷ u ∷ us else u ∷ push_in_flight t us

-- `next_seqno()`.
unfoldable pub next_seqno_relative : TcpSender → WrappingInt32
next_seqno_relative s = wrap s.next_seqno s.isn

-- `new_segment.header().seqno = next_seqno()`.
unfoldable pub stamp : TcpSender → TcpSegment → TcpSegment
unfolding next_seqno_relative
stamp s seg = record seg { header = record (seg.header) { seqno = next_seqno_relative s } }

unfoldable pub send_segment : TcpSender → TcpSegment → TcpSender
send_segment s seg =
    let seg' = stamp s seg in
    record s {
      segments_out = s.segments_out ++ (seg' ∷ []);
      segments_in_flight =
          push_in_flight (record { abs_seqno = s.next_seqno; seg = seg' }) s.segments_in_flight;
      next_seqno = (s.next_seqno + length_in_sequence_space seg') % u64_mod;
      bytes_in_flight = (s.bytes_in_flight + length_in_sequence_space seg') % u64_mod;
      is_timer_running = true;
      time_spent = if s.is_timer_running then s.time_spent else 0;
      rto = if s.is_timer_running then s.rto else s.initial_retransmission_timeout;
    }

-- `if (payload_size > MAX_PAYLOAD_SIZE) payload_size = MAX_PAYLOAD_SIZE`.
unfoldable pub payload_size : ℕ → ℕ
payload_size n = if ltb max_payload_size n then max_payload_size else n

-- A segment with a payload, and a FIN or none.
unfoldable pub data_segment : List ℕ → Bool → TcpSegment
unfolding default_segment
data_segment payload fin = record (default_segment) {
  header = record (default_segment.header) { fin = fin };
  payload = payload;
}

-- Whether the loop of `fill_window` makes a round: its test, and the return when there is nothing to
-- send yet.
unfoldable pub goes_on : ℕ → TcpSender → Bool
goes_on n s =
    (ltb 0 n && not s.fin)
    && not (not (ByteStream.eof s.stream) && ByteStream.buffer_empty s.stream)

-- A round of the loop: `n` is `n_bytes_can_send`.
unfoldable pub fill_round : ℕ → TcpSender → ℕ × TcpSender
fill_round n s =
    let size = payload_size n in
    let (stream', payload) = ByteStream.read s.stream size in
    let last =
      ByteStream.eof stream' && ltb (length_in_sequence_space (data_segment payload false)) n in
    (
      ((if last then n - 1 else n) + u64_mod - size) % u64_mod,
      send_segment (record s { stream = stream'; fin = if last then true else s.fin })
          (data_segment payload last),
    )

-- The loop, on fuel.
unfoldable pub fill_loop : ℕ → ℕ → TcpSender → TcpSender
fill_loop zero n s = s
fill_loop (suc fuel) n s =
    let (n', s') = fill_round n s in
    let rest = fill_loop fuel n' s' in if goes_on n s then rest else s

-- `_rwnd > 0 ? _rwnd : 1`.
unfoldable pub window : TcpSender → ℕ
window s = if ltb 0 s.rwnd then s.rwnd else 1

-- `n_bytes_can_send` before the loop; both subtractions wrap.
unfoldable pub can_send : TcpSender → ℕ
unfolding window
can_send s = (window s + u64_mod - (s.next_seqno + u64_mod - s.checkpoint) % u64_mod) % u64_mod

-- The loop takes a byte of the stream in each round, or sends the FIN: `buffer_size + 2` rounds are
-- enough.
unfoldable pub fill_window : TcpSender → TcpSender
fill_window s =
    if not s.syn
    then (let sent =
          send_segment s (record (default_segment) {
            header = record (default_segment.header) { syn = true };
          }) in
        record sent { syn = true })
    else fill_loop (s.stream.end_of_buffer + 2) (can_send s) s

-- The loop over the segments in flight: what is left of them, and of `_bytes_in_flight`.
unfoldable pub pop_acked : ℕ → List OrderedSegment → ℕ → List OrderedSegment × ℕ
pop_acked ackno [] bytes = ([], bytes)
pop_acked ackno (t ∷ ts) bytes =
    let len = length_in_sequence_space t.seg in
    let rest = pop_acked ackno ts ((bytes + u64_mod - len) % u64_mod) in
    if leb ((t.abs_seqno + len) % u64_mod) ackno then rest else (t ∷ ts, bytes)

unfoldable pub is_empty {ℓ} : {A : Type ℓ} → List A → Bool
is_empty [] = true
is_empty (x ∷ xs) = false

-- What an acknowledgment that is new does before `fill_window`.
unfoldable pub take_ack : TcpSender → ℕ → TcpSender
take_ack s abs_ackno =
    let (left, bytes) = pop_acked abs_ackno s.segments_in_flight s.bytes_in_flight in
    record s {
      checkpoint = abs_ackno;
      segments_in_flight = left;
      bytes_in_flight = bytes;
      rto = s.initial_retransmission_timeout;
      time_spent = if is_empty left then s.time_spent else 0;
      is_timer_running = if is_empty left then s.is_timer_running else true;
      n_consecutive_retransmissions = 0;
    }

unfoldable pub ack_received : TcpSender → WrappingInt32 → ℕ → TcpSender
ack_received s ackno window_size =
    let abs_ackno = unwrap ackno s.isn s.checkpoint in
    let s' = record s { rwnd = window_size } in
    if ltb s'.next_seqno abs_ackno
    then s'
    else (if leb abs_ackno s'.checkpoint then s' else fill_window (take_ack s' abs_ackno))

-- The retransmission of the first segment in flight.
unfoldable pub retransmit : TcpSender → List OrderedSegment → TcpSender
retransmit s [] = s
retransmit s (t ∷ ts) = record s {
  segments_out = s.segments_out ++ (t.seg ∷ []);
  time_spent = 0;
  n_consecutive_retransmissions =
      if ltb 0 s.rwnd
      then (s.n_consecutive_retransmissions + 1) % u32_mod
      else s.n_consecutive_retransmissions;
  rto = if ltb 0 s.rwnd then (s.rto * 2) % u32_mod else s.rto;
}

-- The second `if` of `tick`.
unfoldable pub stop_timer : TcpSender → TcpSender
unfolding is_empty
stop_timer s =
    if is_empty s.segments_in_flight
    then record s { time_spent = 0; is_timer_running = false }
    else s

unfoldable pub tick : TcpSender → ℕ → TcpSender
unfolding retransmit stop_timer
tick s ms =
    let s' = record s { time_spent = (s.time_spent + ms) % u64_mod } in
    stop_timer (if leb s'.rto s'.time_spent then retransmit s' s'.segments_in_flight else s')

unfoldable pub send_empty_segment : TcpSender → TcpSender
unfolding stamp default_segment
send_empty_segment s = record s { segments_out = s.segments_out ++ (stamp s default_segment ∷ []) }
