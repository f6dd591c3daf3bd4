-- ===== src/ByteStream.antt =====
-- libsponge/byte_stream.hh and .cc: a bounded byte stream over a flat array.
-- Bytes are numbers. `unsigned int` counters wrap at 2^32 and `size_t` values at 2^64.
pub mod Inv
pub mod Fifo
pub mod Faults
mod Examples
use csed.Base.{
  ℕ, zero, suc, ◌+◌, ◌-◌, ◌%◌, min, Bool, true, false, ◌&&◌, List, [], ◌∷◌, ltb, ◌==◌,
  if◌then◌else◌, u32_mod, u64_mod, length, get_or, set, take, replicate,
}

pub record ByteStream : Type 0 where
  pub capacity : ℕ
  pub buffer : List ℕ
  pub end_of_buffer : ℕ
  pub bytes_read : ℕ
  pub bytes_written : ℕ
  pub is_input_ended : Bool
  pub error : Bool

-- `string(capacity, ' ')`.
unfoldable pub new : ℕ → ByteStream
new capacity = record {
  capacity = capacity;
  buffer = replicate capacity b' ';
  end_of_buffer = 0;
  bytes_read = 0;
  bytes_written = 0;
  is_input_ended = false;
  error = false;
}

unfoldable pub remaining_capacity : ByteStream → ℕ
remaining_capacity s = (s.capacity + u64_mod - s.end_of_buffer) % u64_mod

-- `for (i = 0; i < writeSize; ++i) buffer[endOfBuffer++] = data[i]`, on the rounds left and the
-- part of `data` that is not copied yet.
unfoldable pub write_loop : ℕ → List ℕ → List ℕ → ℕ → List ℕ × ℕ
write_loop zero rest buffer end = (buffer, end)
write_loop (suc n) [] buffer end = (buffer, end)
write_loop (suc n) (x ∷ rest) buffer end =
    write_loop n rest (set buffer end x) ((end + 1) % u32_mod)

unfoldable pub write : ByteStream → List ℕ → ByteStream × ℕ
unfolding remaining_capacity write_loop
write s data' =
    let write_size = min (length data') (remaining_capacity s) in
    let (buffer, end) = write_loop write_size data' s.buffer s.end_of_buffer in
    (
      record s {
        buffer = buffer;
        end_of_buffer = end;
        bytes_written = (s.bytes_written + write_size) % u32_mod;
      },
      write_size,
    )

-- `buffer.substr(0, len)`: of the array, not of its filled part.
unfoldable pub peek_output : ByteStream → ℕ → List ℕ
peek_output s len = take len s.buffer

-- `for (i = len; i < endOfBuffer; ++i) buffer[i - len] = buffer[i]`, on the rounds left.
unfoldable pub shift_loop : ℕ → ℕ → ℕ → List ℕ → List ℕ
shift_loop zero i len buffer = buffer
shift_loop (suc n) i len buffer =
    shift_loop n (i + 1) len (set buffer (i - len) (get_or buffer i 0))

-- The subtraction from `endOfBuffer` wraps; the loop makes no round when `len` is the larger.
-- (From `len = 2^32` on, `unsigned int i = len` would be truncated: that is not modelled.)
unfoldable pub pop_output : ByteStream → ℕ → ByteStream
unfolding shift_loop
pop_output s len = record s {
  buffer = shift_loop (s.end_of_buffer - len) len len s.buffer;
  end_of_buffer = (s.end_of_buffer + u64_mod - len) % u32_mod;
  bytes_read = (s.bytes_read + len) % u32_mod;
}

unfoldable pub read : ByteStream → ℕ → ByteStream × List ℕ
unfolding peek_output pop_output
read s len =
    let read_len = if ltb len s.end_of_buffer then len else s.end_of_buffer in
    (pop_output s read_len, peek_output s read_len)

unfoldable pub end_input : ByteStream → ByteStream
end_input s = record s { is_input_ended = true }

unfoldable pub set_error : ByteStream → ByteStream
set_error s = record s { error = true }

unfoldable pub input_ended : ByteStream → Bool
input_ended s = s.is_input_ended

unfoldable pub buffer_size : ByteStream → ℕ
buffer_size s = s.end_of_buffer

unfoldable pub buffer_empty : ByteStream → Bool
buffer_empty s = s.end_of_buffer == 0

unfoldable pub eof : ByteStream → Bool
unfolding buffer_empty
eof s = s.is_input_ended && buffer_empty s
