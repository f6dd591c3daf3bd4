-- ===== src/Reassembler.antt =====
-- libsponge/stream_reassembler.hh and .cc: substrings that come in any order are put together.
pub mod Cells
pub mod Inv
pub mod Push
pub mod Order
pub mod Run
pub mod Faults
pub mod Errors
mod Examples
use csed.Base.{
  ℕ, zero, suc, ◌+◌, ◌-◌, ◌%◌, min, max, Bool, true, false, ◌&&◌, List, [], ◌∷◌, ◌++◌, ◌==◌,
  if◌then◌else◌, u64_mod, length, get_or, set, take, drop, replicate,
}
use csed.ByteStream
use csed.ByteStream.{ByteStream}

-- A place of `written` is 1 where the byte at that place of `buffer` has come, and 0 elsewhere.
pub record Reassembler : Type 0 where
  pub output : ByteStream
  pub capacity : ℕ
  pub received_eof : Bool
  pub buffer : List ℕ
  pub written : List ℕ
  pub num_unassembled : ℕ

unfoldable pub new : ℕ → Reassembler
new capacity = record {
  output = ByteStream.new capacity;
  capacity = capacity;
  received_eof = false;
  buffer = replicate capacity b' ';
  written = replicate capacity 0;
  num_unassembled = 0;
}

-- The body of `for (it = l_index; it < r_index; ++it)`.
unfoldable pub store_byte : ℕ → ℕ → ℕ → List ℕ → Reassembler → Reassembler
store_byte it first index data' r =
    if get_or r.written (it - first) 0 == 0
    then record r {
      buffer = set r.buffer (it - first) (get_or data' (it - index) 0);
      written = set r.written (it - first) 1;
      num_unassembled = (r.num_unassembled + 1) % u64_mod;
    }
    else r

-- That loop, on the rounds left.
unfoldable pub create_loop : ℕ → ℕ → ℕ → ℕ → List ℕ → Reassembler → Reassembler
unfolding store_byte
create_loop zero it first index data' r = r
create_loop (suc n) it first index data' r =
    create_loop n (it + 1) first index data' (store_byte it first index data' r)

-- Where `l_index >= r_index` there is no round.
unfoldable pub create_segment : ℕ → ℕ → ℕ → ℕ → List ℕ → Reassembler → Reassembler
unfolding create_loop
create_segment first index l_index r_index data' r =
    create_loop (r_index - l_index) l_index first index data' r

-- `for (it = 0; it < _capacity; ++it)` up to the first 0, on the rounds left and the places ahead.
unfoldable pub count_assembled : ℕ → List ℕ → ℕ
count_assembled zero ws = 0
count_assembled (suc n) [] = 0
count_assembled (suc n) (w ∷ ws) = if w == 0 then 0 else suc (count_assembled n ws)

unfoldable pub write_segment : Reassembler → Reassembler
unfolding count_assembled
write_segment r =
    let n = count_assembled r.capacity r.written in
    record r {
      output = (ByteStream.write r.output (take n r.buffer)).0;
      buffer = drop n r.buffer ++ replicate n b' ';
      written = drop n r.written ++ replicate n 0;
      num_unassembled = (r.num_unassembled + u64_mod - n) % u64_mod;
    }

-- `if (eof && r_index == index + data.length()) _received_EOF = true`.
unfoldable pub note_eof : Bool → ℕ → ℕ → Reassembler → Reassembler
note_eof eof r_index end r = if eof && (r_index == end) then record r { received_eof = true } else r

-- `if (_received_EOF && _num_unassembled_bytes == 0) _output.end_input()`.
unfoldable pub finish : Reassembler → Reassembler
finish r =
    if r.received_eof && (r.num_unassembled == 0)
    then record r { output = ByteStream.end_input r.output }
    else r

unfoldable pub first_unassembled : Reassembler → ℕ
first_unassembled r = r.output.bytes_written

unfoldable pub first_unacceptable : Reassembler → ℕ
unfolding first_unassembled
first_unacceptable r =
    (first_unassembled r + r.capacity + u64_mod - ByteStream.buffer_size r.output) % u64_mod

unfoldable pub push_substring : Reassembler → List ℕ → ℕ → Bool → Reassembler
unfolding create_segment write_segment note_eof finish first_unassembled first_unacceptable
push_substring r data' index eof =
    let end = (index + length data') % u64_mod in
    let l_index = max (first_unassembled r) index in
    let r_index = min (first_unacceptable r) end in
    finish (
      write_segment (
        create_segment (first_unassembled r) index l_index r_index data'
          (note_eof eof r_index end r)))

unfoldable pub unassembled_bytes : Reassembler → ℕ
unassembled_bytes r = r.num_unassembled

unfoldable pub empty : Reassembler → Bool
empty r = r.num_unassembled == 0
