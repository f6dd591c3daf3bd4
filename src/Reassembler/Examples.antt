-- ===== src/Reassembler/Examples.antt =====
-- Runs of libsponge/stream_reassembler.cc.
use csed.Base.{
  ℕ, ◌+◌, ◌≡◌, ◌<◌, ◌≤◌, ◌||◌, refl, zero, suc, arith, List, [], ◌∷◌, ◌++◌, true, false, length,
}
use csed.ByteStream
use csed.ByteStream.Inv.{contents}
use csed.Reassembler.{new, push_substring}
use csed.Reassembler.Inv.{IsValid, known, slice}
use csed.Reassembler.Push.{
  Matches, InRange, in_window, push_substring-IsValid, known-push_substring, push_substring_maximal,
}
use csed.Reassembler.Run.{
  Event, push_event, read_event, Honest, new-Good, run, run_in_order, run_ended,
}
use csed.Reassembler.Faults.{push_substring_ends_early}

-- "abcd", with "cd" before "abc", and a read in between.
abbrev letters : ℕ → ℕ
letters k = b'a' + k

abbrev history : List Event
history =
    push_event (b'c' ∷ b'd' ∷ []) 2 true
    ∷ push_event (b'a' ∷ b'b' ∷ b'c' ∷ []) 0 false
    ∷ read_event 3
    ∷ []

history_runs :
    ((run (new 8) history).1 ≡ b'a' ∷ b'b' ∷ b'c' ∷ [])
    × ((run (new 8) history).0.output.is_input_ended ≡ true)
unfolding run new push_substring ByteStream.new ByteStream.write ByteStream.read
    ByteStream.buffer_size ByteStream.end_input
history_runs = (refl, refl)

late_Matches : Matches letters (b'c' ∷ b'd' ∷ []) 2
late_Matches zero h = refl
late_Matches (suc zero) h = refl
late_Matches (suc (suc i)) h = absurd (omega arith)

early_Matches : Matches letters (b'a' ∷ b'b' ∷ b'c' ∷ []) 0
early_Matches zero h = refl
early_Matches (suc zero) h = refl
early_Matches (suc (suc zero)) h = refl
early_Matches (suc (suc (suc i))) h = absurd (omega arith)

history-Honest : Honest letters 4 history
history-Honest = (
  record { matches = late_Matches; inside = omega arith; last = λ e. (refl, omega arith) },
  (record { matches = early_Matches; inside = omega arith; last = λ e. cc }, tt),
)

run_in_order_example :
    let (q, out) = run (new 8) history in
    (out ++ contents q.output ≡ slice letters 0 q.output.bytes_written)
    × (q.output.bytes_written ≤ 4)
run_in_order_example = run_in_order letters 4 8 history (omega arith) history-Honest

run_ended_example :
    let (q, out) = run (new 8) history in out ++ contents q.output ≡ slice letters 0 4
run_ended_example = run_ended letters 4 8 history (omega arith) history-Honest (
    unfold run new push_substring ByteStream.new ByteStream.write ByteStream.read
      ByteStream.buffer_size ByteStream.end_input in
    refl)

empty-IsValid : IsValid (new 8)
empty-IsValid = (new-Good letters 4 8 (omega arith)).valid

new-InRange : (d : List ℕ) (i : ℕ) → i + length d < 9 → InRange (new 8) d i
unfolding new ByteStream.new
new-InRange d i h = record { low = omega arith; high = omega arith }

push_substring-IsValid_example : IsValid (push_substring (new 8) (b'c' ∷ b'd' ∷ []) 2 true)
push_substring-IsValid_example =
    push_substring-IsValid (new 8) (b'c' ∷ b'd' ∷ []) 2 true empty-IsValid
      (new-InRange (b'c' ∷ b'd' ∷ []) 2 (omega arith))

known-push_substring_example :
    known (push_substring (new 8) (b'c' ∷ b'd' ∷ []) 2 true) 3
    ≡ known (new 8) 3 || in_window (new 8) (b'c' ∷ b'd' ∷ []) 2 3
known-push_substring_example =
    known-push_substring (new 8) (b'c' ∷ b'd' ∷ []) 2 true empty-IsValid
      (new-InRange (b'c' ∷ b'd' ∷ []) 2 (omega arith)) 3

push_substring_maximal_run :
    let q = push_substring (new 8) (b'a' ∷ b'b' ∷ []) 0 false in
    known q q.output.bytes_written ≡ false
push_substring_maximal_run =
    push_substring_maximal (new 8) (b'a' ∷ b'b' ∷ []) 0 false empty-IsValid
      (new-InRange (b'a' ∷ b'b' ∷ []) 0 (omega arith))

push_substring_ends_early_example :
    let q = push_substring (new 8) [] 5 true in
    (q.output.is_input_ended ≡ true) × (q.output.bytes_written < 5)
unfolding new ByteStream.new
push_substring_ends_early_example =
    push_substring_ends_early (new 8) 5 empty-IsValid (new-InRange [] 5 (omega arith)) refl
      (omega arith) (omega arith)
