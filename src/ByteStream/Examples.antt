-- ===== src/ByteStream/Examples.antt =====
-- Runs of the byte stream of libsponge/byte_stream.cc.
use csed.Base.{false, ◌-◌, ◌≡◌, ◌<◌, ◌^◌, refl, arith, List, [], ◌∷◌, ◌++◌, length}
use csed.ByteStream.{ByteStream, new, write, pop_output, peek_output, buffer_size}
use csed.ByteStream.Inv.{IsValid, contents}
use csed.ByteStream.Fifo.{
  Op, write_op, read_op, end_op, error_op, view, run, fifo_run, run_refines, bytes_conserved,
  delivered_bytes, accepted_bytes, final,
}
use csed.ByteStream.Faults.{pop_output_underflow, peek_output_beyond, bytes_written_wraps}

abbrev held : ByteStream
held = record {
  capacity = 4;
  buffer = b'c' ∷ b'a' ∷ b't' ∷ b' ' ∷ [];
  end_of_buffer = 3;
  bytes_read = 0;
  bytes_written = 3;
  is_input_ended = false;
  error = false;
}

held_is_written : (write (new 4) (b'c' ∷ b'a' ∷ b't' ∷ [])).0 ≡ held
unfolding write new
held_is_written = refl

abbrev script : List Op
script = read_op 1 ∷ write_op (b's' ∷ b'!' ∷ b'?' ∷ []) ∷ end_op ∷ read_op 9 ∷ error_op ∷ []

held-IsValid : IsValid held
held-IsValid = omega arith

read_after_write : delivered_bytes held script ≡ b'c' ∷ b'a' ∷ b't' ∷ b's' ∷ b'!' ∷ []
unfolding delivered_bytes
read_after_write = refl

run_refines_example : run held script ≡ fifo_run (view held) script
run_refines_example = run_refines held script held-IsValid

bytes_conserved_run :
    delivered_bytes held script ++ contents (final held script)
    ≡ contents held ++ accepted_bytes held script
bytes_conserved_run = bytes_conserved held script held-IsValid

pop_output_underflow_example :
    (buffer_size (pop_output held 4) ≡ 2 ^ 32 - 1) × (4 < buffer_size (pop_output held 4))
pop_output_underflow_example =
    pop_output_underflow held 4 held-IsValid (omega arith) (omega arith) (omega arith)

peek_output_beyond_run :
    (length (peek_output held 9) ≡ 4) × (length (contents held) < length (peek_output held 9))
peek_output_beyond_run = peek_output_beyond held 9 held-IsValid (omega arith) (omega arith)

-- Four bytes short of 2^32 written.
abbrev old : ByteStream
old = record held { bytes_written = 2 ^ 32 - 1; bytes_read = 2 ^ 32 - 4 }

bytes_written_wraps_run : (write old (b'!' ∷ [])).0.bytes_written < 2 ^ 32 - 1
unfolding write
bytes_written_wraps_run =
    bytes_written_wraps old (b'!' ∷ []) (omega arith) (omega arith) (omega arith)
