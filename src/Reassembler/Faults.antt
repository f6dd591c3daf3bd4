-- ===== src/Reassembler/Faults.antt =====
-- An end mark that arrives early, in libsponge/stream_reassembler.cc.
use csed.Base.{ℕ, ◌+◌, ◌-◌, ◌≤◌, ◌<◌, ◌≡◌, sym, ap, ◌∙◌, true, [], arith, ltb, get_or}
use csed.Reassembler.{Reassembler, push_substring}
use csed.Reassembler.Cells.{ones_zero, zero_ones}
use csed.Reassembler.Inv.{IsValid, known}
use csed.Reassembler.Push.{InRange, in_window, push_substring-IsValid, known-push_substring}
use csed.Reassembler.Run.{push_substring-Pushed}

-- With nothing stored, exactly the places that went out are known.
known_exactly :
    (r : Reassembler) (k : ℕ)
    → IsValid r
    → r.num_unassembled ≡ 0
    → known r k ≡ ltb k r.output.bytes_written
unfolding known
known_exactly r k v e =
    ground (arith, ones_zero r.written (k - r.output.bytes_written) (sym v.counted ∙ e))

module _ (r : Reassembler) (index : ℕ) (v : IsValid r) (small : InRange r [] index)
    (nothing : r.num_unassembled ≡ 0) where
  pub known_after :
      (k : ℕ) → known (push_substring r [] index true) k ≡ ltb k r.output.bytes_written
  unfolding in_window
  known_after k =
      known-push_substring r [] index true v small k ∙ ground (arith, known_exactly r k v nothing)

  pub still_out : (push_substring r [] index true).output.bytes_written ≤ r.output.bytes_written
  unfolding known
  still_out = ground (arith, known_after r.output.bytes_written)

  pub still_nothing : (push_substring r [] index true).num_unassembled ≡ 0
  unfolding known
  still_nothing =
      let q = push_substring r [] index true in
      let w = q.output.bytes_written in
      (push_substring-IsValid r [] index true v small).counted
      ∙ zero_ones q.written λ j.
        let e = ap (λ i. get_or q.written i 0) {x = w + j - w} {y = j} (omega arith) in
        ground (
          arith,
          known_after (w + j),
          still_out,
          e,
          (push_substring-Pushed r [] index true v small).grows,
        )

-- In a valid reassembler that is `InRange`, with nothing stored, an end mark on an empty substring
-- that is ahead of the bytes sent out, and not beyond the window, ends the output at once,
-- although bytes before it are still missing.
pub push_substring_ends_early :
    (r : Reassembler) (index : ℕ)
    → IsValid r
    → InRange r [] index
    → r.num_unassembled ≡ 0
    → r.output.bytes_written < index
    → index ≤ r.output.bytes_read + r.capacity
    → let q = push_substring r [] index true in
      (q.output.is_input_ended ≡ true) × (q.output.bytes_written < index)
push_substring_ends_early r index v small nothing ahead near =
    let p = push_substring-Pushed r [] index true v small in
    (
      ground (arith, p.end_flag, p.eof_flag, still_nothing r index v small nothing),
      omega (arith, still_out r index v small nothing),
    )
