-- ===== src/Receiver/Examples.antt =====
-- Runs of libsponge/tcp_receiver.cc.
use csed.Base.{
  ℕ, zero, suc, ◌+◌, ◌≡◌, refl, arith, Bool, true, false, ◌&&◌, some, List, [], ◌∷◌, if◌then◌else◌,
}
use csed.ByteStream
use csed.Reassembler
use csed.Reassembler.Inv.{known}
use csed.Reassembler.Push.{Matches}
use csed.Reassembler.Run.{Good, IsHonest, new-Good}
use csed.Wrapping.{wrap, unwrap}
use csed.Segment.{TcpSegment}
use csed.Receiver.{TcpReceiver, new, segment_received, ackno, window_size}
use csed.Receiver.Laws.{
  IsAt, segment_received_before_syn, segment_received_push, ackno_lem, segment_received-Good,
  window_size_lem,
}
use csed.Receiver.Faults.{ackno_early_fin}

abbrev segment : ℕ → Bool → Bool → List ℕ → TcpSegment
segment seqno syn fin payload = record {
  header = record {
    sport = 0;
    dport = 0;
    seqno = seqno;
    ackno = 0;
    doff = 5;
    urg = false;
    ack = false;
    psh = false;
    rst = false;
    syn = syn;
    fin = fin;
    win = 0;
    cksum = 0;
    uptr = 0;
  };
  payload = payload;
}

-- After a SYN with sequence number 2^32 - 1.
abbrev synced : TcpReceiver
synced = record {
  reassembler = Reassembler.new 8;
  capacity = 8;
  isn = 0xffff_ffff;
  received_syn = true;
  received_fin = false;
}

abbrev letters : ℕ → ℕ
letters k = b'a' + k

synced_by_syn : segment_received (new 8) (segment 0xffff_ffff true false []) ≡ synced
unfolding segment_received new unwrap Reassembler.push_substring Reassembler.new ByteStream.new
    ByteStream.write ByteStream.buffer_size
synced_by_syn = refl

synced-Good : Good letters 2 synced.reassembler
synced-Good = new-Good letters 2 8 (omega arith)

letters-IsHonest : IsHonest letters 2 (b'a' ∷ b'b' ∷ []) 0 true
letters-IsHonest = record {
  matches = places;
  inside = omega arith;
  last = λ e. (refl, omega arith);
}
  where
    places : Matches letters (b'a' ∷ b'b' ∷ []) 0
    places zero h = refl
    places (suc zero) h = refl
    places (suc (suc i)) h = absurd (omega arith)

letters-IsAt : IsAt synced (segment 0 false true (b'a' ∷ b'b' ∷ [])) 0
unfolding wrap Reassembler.new ByteStream.new
letters-IsAt = record { number = refl; near = omega arith; accepted = refl }

segment_received_before_syn_run :
    segment_received (new 8) (segment 3 false true (b'a' ∷ [])) ≡ new 8
unfolding new
segment_received_before_syn_run =
    segment_received_before_syn (new 8) (segment 3 false true (b'a' ∷ [])) refl refl

segment_received_push_example :
    segment_received synced (segment 0 false true (b'a' ∷ b'b' ∷ [])) ≡ record synced {
      received_fin = true;
      reassembler = Reassembler.push_substring (Reassembler.new 8) (b'a' ∷ b'b' ∷ []) 0 true;
    }
unfolding Reassembler.new ByteStream.new
segment_received_push_example =
    segment_received_push synced (segment 0 false true (b'a' ∷ b'b' ∷ [])) 0 (omega arith)
      (omega arith) letters-IsAt

ackno_lem_run :
    ackno synced
    ≡ some (
        wrap
          ((Reassembler.new 8).output.bytes_written
            + 1
            + (if Reassembler.empty (Reassembler.new 8) && false then 1 else 0))
          0xffff_ffff)
ackno_lem_run = ackno_lem synced

segment_received-Good_run :
    Good letters 2 (segment_received synced (segment 0 false true (b'a' ∷ b'b' ∷ []))).reassembler
segment_received-Good_run =
    segment_received-Good letters 2 synced (segment 0 false true (b'a' ∷ b'b' ∷ [])) 0 (omega arith)
      letters-IsAt synced-Good letters-IsHonest

window_size_lem_run :
    (Reassembler.new 8).output.bytes_written + window_size synced
    ≡ (Reassembler.new 8).output.bytes_read + (Reassembler.new 8).capacity
window_size_lem_run = window_size_lem letters 2 synced synced-Good

ackno_early_fin_example :
    let q = segment_received synced (segment 5 false true []) in
    (ackno q ≡ some (wrap ((Reassembler.new 8).output.bytes_written + 2) 0xffff_ffff))
    × (known q.reassembler (Reassembler.new 8).output.bytes_written ≡ false)
unfolding Reassembler.new ByteStream.new wrap
ackno_early_fin_example =
    ackno_early_fin synced (segment 5 false true []) 5 (omega arith)
      (record { number = refl; near = omega arith; accepted = refl }) synced-Good.valid
      (record { low = omega arith; high = omega arith }) refl refl refl (omega arith)
