-- ===== src/Sender/Timer.antt =====
-- `TCPSender::tick`: retransmission and exponential backoff.
use csed.Base.{
  ℕ, zero, suc, ◌+◌, ◌*◌, ◌%◌, ◌^◌, ◌≤◌, ◌<◌, ◌≡◌, refl, sym, ap, ◌∙◌, true, not, ◌&&◌, ◌||◌, List,
  [], ◌∷◌, ◌++◌, append_assoc, append-nil, arith, ltb, leb, if◌then◌else◌, u64_mod, u32_mod,
  Bool-cases, inl, inr, replicate,
}
use native.Mathlib.Nat.{pow-suc}
use csed.Segment.{TcpSegment}
use csed.Sender.{OrderedSegment, TcpSender, is_empty, retransmit, stop_timer, tick}
use csed.Sender.Chain.{IsValid}

-- What `tick` makes of the sender when the time is up and `t` is first in flight.
unfoldable pub retransmitted : TcpSender → OrderedSegment → TcpSender
retransmitted s t = record s {
  segments_out = s.segments_out ++ (t.seg ∷ []);
  time_spent = 0;
  n_consecutive_retransmissions =
      if ltb 0 s.rwnd
      then (s.n_consecutive_retransmissions + 1) % u32_mod
      else s.n_consecutive_retransmissions;
  rto = if ltb 0 s.rwnd then (s.rto * 2) % u32_mod else s.rto;
}

tick_expired :
    (s : TcpSender) (t : OrderedSegment) (ts : List OrderedSegment) (ms : ℕ)
    → s.segments_in_flight ≡ t ∷ ts
    → s.time_spent + ms < u64_mod
    → s.rto ≤ s.time_spent + ms
    → tick s ms ≡ retransmitted s t
unfolding tick retransmit stop_timer is_empty retransmitted
tick_expired s t ts ms e small up =
    let time : (s.time_spent + ms) % u64_mod ≡ s.time_spent + ms = omega arith in
    let late : leb s.rto (s.time_spent + ms) ≡ true = ground arith in simp (time, late, e) refl

retransmit-IsValid :
    (s : TcpSender) (ts : List OrderedSegment) → IsValid s → IsValid (retransmit s ts)
unfolding retransmit
retransmit-IsValid s [] v = v
retransmit-IsValid s (t ∷ ts) v = record {
  stream_valid = v.stream_valid;
  counted = v.counted;
  chain = v.chain;
  acked = v.acked;
  unacked = v.unacked;
  running = v.running;
  started = v.started;
}

stop_timer-IsValid : (s : TcpSender) → IsValid s → IsValid (stop_timer s)
unfolding stop_timer
stop_timer-IsValid s v = elim (Bool-cases (is_empty s.segments_in_flight)) [
  | inr more ↦ rw more v
  | inl none' ↦ rw none' (record {
    stream_valid = v.stream_valid;
    counted = v.counted;
    chain = v.chain;
    acked = v.acked;
    unacked = v.unacked;
    running = λ e. cc;
    started = v.started;
  })
]

-- `tick` keeps the invariant of the sender, for any time.
pub tick-IsValid : (s : TcpSender) (ms : ℕ) → IsValid s → IsValid (tick s ms)
unfolding tick
tick-IsValid s ms v =
    let later = record s { time_spent = (s.time_spent + ms) % u64_mod } in
    let v' : IsValid later = record {
      stream_valid = v.stream_valid;
      counted = v.counted;
      chain = v.chain;
      acked = v.acked;
      unacked = v.unacked;
      running = v.running;
      started = v.started;
    } in
    stop_timer-IsValid
      (if leb s.rto ((s.time_spent + ms) % u64_mod)
        then retransmit later s.segments_in_flight
        else later)
      (elim (Bool-cases (leb s.rto ((s.time_spent + ms) % u64_mod))) [
        | inl up ↦ rw up (retransmit-IsValid later s.segments_in_flight v')
        | inr quiet ↦ rw quiet v'
      ])

-- The first segment in flight, if there is one.
unfoldable pub first_segment : List OrderedSegment → List TcpSegment
first_segment [] = []
first_segment (t ∷ ts) = t.seg ∷ []

tick_parts :
    (s : TcpSender) (ms : ℕ) (ts : List OrderedSegment)
    → s.segments_in_flight ≡ ts
    → s.time_spent + ms < u64_mod
    → let q = tick s ms in
      let up = leb s.rto (s.time_spent + ms) in
      (q.segments_out ≡ s.segments_out ++ (if up then first_segment ts else []))
      × (q.n_consecutive_retransmissions ≡ (
          if up && not (is_empty ts) && ltb 0 s.rwnd
          then (s.n_consecutive_retransmissions + 1) % u32_mod
          else s.n_consecutive_retransmissions))
      × (q.rto ≡ (if up && not (is_empty ts) && ltb 0 s.rwnd then (s.rto * 2) % u32_mod else s.rto))
      × (q.time_spent ≡ (if up || is_empty ts then 0 else s.time_spent + ms))
      × (q.segments_in_flight ≡ ts)
unfolding tick retransmit stop_timer is_empty first_segment
tick_parts s ms [] e small =
    let time : (s.time_spent + ms) % u64_mod ≡ s.time_spent + ms = omega arith in
    elim (Bool-cases (leb s.rto (s.time_spent + ms))) [
      | inl up ↦ simp (time, up, e) (sym (append-nil s.segments_out), refl, refl, refl, refl)
      | inr quiet ↦ simp (time, quiet, e) (sym (append-nil s.segments_out), refl, refl, refl, refl)
    ]
tick_parts s ms (t ∷ ts) e small =
    let time : (s.time_spent + ms) % u64_mod ≡ s.time_spent + ms = omega arith in
    elim (Bool-cases (leb s.rto (s.time_spent + ms))) [
      | inl up ↦ simp (time, up, e) (refl, refl, refl, refl, refl)
      | inr quiet ↦ simp (time, quiet, e) (sym (append-nil s.segments_out), refl, refl, refl, refl)
    ]

-- As long as the clock stays below 2^64: when the time since the last (re)start reaches the
-- timeout and segments are in flight, `tick` sends the first of them once more and restarts the
-- clock; if the receiver's window is not 0 it also counts a retransmission and doubles the
-- timeout, both modulo 2^32. Otherwise it sends nothing, leaves the count and the timeout, and
-- only the clock goes on, or back to 0 with nothing in flight. What is in flight stays.
pub tick_lem :
    (s : TcpSender) (ms : ℕ)
    → s.time_spent + ms < u64_mod
    → let q = tick s ms in
      let ts = s.segments_in_flight in
      let up = leb s.rto (s.time_spent + ms) in
      (q.segments_out ≡ s.segments_out ++ (if up then first_segment ts else []))
      × (q.n_consecutive_retransmissions ≡ (
          if up && not (is_empty ts) && ltb 0 s.rwnd
          then (s.n_consecutive_retransmissions + 1) % u32_mod
          else s.n_consecutive_retransmissions))
      × (q.rto ≡ (if up && not (is_empty ts) && ltb 0 s.rwnd then (s.rto * 2) % u32_mod else s.rto))
      × (q.time_spent ≡ (if up || is_empty ts then 0 else s.time_spent + ms))
      × (q.segments_in_flight ≡ ts)
tick_lem s ms small = tick_parts s ms s.segments_in_flight refl small

double : (r k : ℕ) → r * 2 ^ suc k ≡ r * 2 * 2 ^ k
double r k = rw (pow-suc 2 k) (omega arith)

double_fits : (r k : ℕ) → r * 2 ^ k < u32_mod → r < u32_mod
double_fits r zero h = omega arith
double_fits r (suc k) h = omega (arith, double_fits (r * 2) k (omega (arith, double r k)))

-- Letting the timeout pass `k` times, with no acknowledgment in between.
pub expire : ℕ → TcpSender → TcpSender
expire zero s = s
expire (suc k) s = expire k (tick s s.rto)

-- From a restarted clock, an open window and a segment in flight, each of `k` timeouts that pass
-- sends the first segment in flight once more, counts one retransmission and doubles the timeout,
-- as long as the timeout and the count stay below 2^32.
pub expire_backoff :
    (k : ℕ) (s : TcpSender) (t : OrderedSegment) (ts : List OrderedSegment)
    → s.segments_in_flight ≡ t ∷ ts
    → s.time_spent ≡ 0
    → 0 < s.rwnd
    → s.rto * 2 ^ k < u32_mod
    → s.n_consecutive_retransmissions + k < u32_mod
    → let q = expire k s in
      (q.rto ≡ s.rto * 2 ^ k)
      × (q.n_consecutive_retransmissions ≡ s.n_consecutive_retransmissions + k)
      × (q.segments_out ≡ s.segments_out ++ replicate k t.seg)
unfolding expire retransmitted
expire_backoff zero s t ts e time open' small few =
    (omega arith, omega arith, sym (append-nil s.segments_out))
expire_backoff (suc k) s t ts e time open' small few =
    let whole : s.rto * 2 ^ suc k ≡ s.rto * 2 * 2 ^ k = double s.rto k in
    let fits : s.rto * 2 < u32_mod = double_fits (s.rto * 2) k (omega (arith, whole)) in
    let q = retransmitted s t in
    let rto' : q.rto ≡ s.rto * 2 = ground arith in
    let n' : q.n_consecutive_retransmissions ≡ s.n_consecutive_retransmissions + 1 = ground arith in
    let more : q.rto * 2 ^ k ≡ s.rto * 2 ^ suc k = ap (λ r. r * 2 ^ k) rto' ∙ sym whole in
    let ih = expire_backoff k q t ts e refl open' (omega (arith, more)) (omega (arith, n')) in
    let step : expire (suc k) s ≡ expire k q =
      ap (expire k) (tick_expired s t ts s.rto e (omega (arith, fits)) (omega arith)) in
    rw step (
      ih.0 ∙ more,
      omega (arith, ih.1, n'),
      (ih.2 ∙ append_assoc s.segments_out (t.seg ∷ []) (replicate k t.seg)),
    )
