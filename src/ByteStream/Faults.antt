-- ===== src/ByteStream/Faults.antt =====
-- Calls of libsponge/byte_stream.cc outside what the array was made for.
use csed.Base.{ℕ, ◌+◌, ◌-◌, ◌≤◌, ◌<◌, ◌≡◌, min, arith, u32_mod, length, List, length-take}
use csed.ByteStream.{ByteStream, pop_output, peek_output, write, buffer_size}
use csed.ByteStream.Inv.{IsValid, write-Wrote, length-contents, contents}

-- A pop of more bytes than are held in a valid stream, of less than 2^32, leaves `endOfBuffer`
-- wrapped round; where the capacity and the bytes asked for stay below 2^32 and the bytes held,
-- the stream then claims more bytes than its capacity.
pub pop_output_underflow :
    (s : ByteStream) (len : ℕ)
    → IsValid s
    → s.end_of_buffer < len
    → len < u32_mod
    → s.capacity + len < u32_mod + s.end_of_buffer
    → (buffer_size (pop_output s len) ≡ u32_mod + s.end_of_buffer - len)
      × (s.capacity < buffer_size (pop_output s len))
unfolding pop_output buffer_size
pop_output_underflow s len v h k l = (omega arith, omega arith)

-- A peek of more bytes than are held in a valid stream that is not full returns bytes of the array
-- behind the last one written: as many as were asked for, up to the capacity.
pub peek_output_beyond :
    (s : ByteStream) (len : ℕ)
    → IsValid s
    → s.end_of_buffer < len
    → s.end_of_buffer < s.capacity
    → (length (peek_output s len) ≡ min len s.capacity)
      × (length (contents s) < length (peek_output s len))
unfolding peek_output
peek_output_beyond s len v h k = (
  omega (arith, length-take len s.buffer, v.array),
  omega (arith, length-take len s.buffer, v.array, length-contents s v),
)

-- In a valid stream whose count of bytes written is below 2^32, a write that takes the count to
-- 2^32 or beyond makes it fall.
pub bytes_written_wraps :
    (s : ByteStream) (d : List ℕ)
    → IsValid s
    → s.bytes_written < u32_mod
    → u32_mod ≤ s.bytes_written + (write s d).1
    → (write s d).0.bytes_written < s.bytes_written
bytes_written_wraps s d v h k =
    let w = write-Wrote s d v in omega (arith, w.total, w.count, v.small)
