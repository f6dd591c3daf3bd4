-- ===== src/Receiver/Faults.antt =====
-- A FIN that arrives early, in libsponge/tcp_receiver.cc.
use csed.Base.{ℕ, ◌+◌, ◌<◌, ◌≡◌, ap, ◌∙◌, true, false, some, [], arith, u32_mod}
use csed.Wrapping.{wrap}
use csed.Reassembler
use csed.Reassembler.Inv.{IsValid, known}
use csed.Reassembler.Push.{InRange}
use csed.Reassembler.Run.{push_substring-Pushed}
use csed.Reassembler.Faults.{known_after, still_out, still_nothing}
use csed.Segment.{TcpSegment}
use csed.Receiver.{TcpReceiver, segment_received, ackno}
use csed.Receiver.Laws.{start, IsAt, segment_received_push, ackno_lem}

-- For a valid receiver with nothing stored, an empty FIN segment (as in `IsAt`) ahead of the bytes
-- put out moves the acknowledgment on by one, over the place after those bytes, although the byte
-- at that place has not come.
pub ackno_early_fin :
    (r : TcpReceiver) (seg : TcpSegment) (index : ℕ)
    → start r seg < u32_mod
    → IsAt r seg index
    → IsValid r.reassembler
    → InRange r.reassembler [] index
    → seg.payload ≡ []
    → seg.header.fin ≡ true
    → r.reassembler.num_unassembled ≡ 0
    → r.reassembler.output.bytes_written < index
    → let q = segment_received r seg in
      (ackno q ≡ some (wrap (r.reassembler.output.bytes_written + 2) (start r seg)))
      × (known q.reassembler r.reassembler.output.bytes_written ≡ false)
unfolding Reassembler.empty
ackno_early_fin r seg index hi at v small none' fin nothing ahead =
    let e = segment_received_push r seg index hi (omega (arith, small.low)) at in
    let p = push_substring-Pushed r.reassembler [] index true v small in
    let bw = r.reassembler.output.bytes_written in
    let out = still_out r.reassembler index v small nothing in
    let k = known_after r.reassembler index v small nothing bw in
    rw (e, none', fin, ackno_lem)
      (
        ap (λ n. some (wrap n (start r seg)))
            (ground (arith, still_nothing r.reassembler index v small nothing, out, p.grows)),
        k ∙ ground arith,
      )
