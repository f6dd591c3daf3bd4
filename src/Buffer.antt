-- ===== src/Buffer.antt =====
-- libsponge/util/buffer.hh and .cc. A `std::string_view` is the list of the bytes that it shows; the
-- count of references of a `std::shared_ptr` is left out, since the string is never written.
pub mod Views
pub mod Laws
mod Examples
use csed.Base.{
  ℕ, zero, suc, ◌+◌, ◌-◌, Bool, true, false, Option, none, some, List, [], ◌∷◌, ◌++◌, ltb, ◌==◌,
  if◌then◌else◌, length, drop,
}

pub record Buffer : Type 0 where
  pub storage : Option (List ℕ)
  pub starting_offset : ℕ

unfoldable pub default_buffer : Buffer
default_buffer = record { storage = none; starting_offset = 0 }

-- `Buffer(std::string &&)`.
unfoldable pub from_string : List ℕ → Buffer
from_string s = record { storage = some s; starting_offset = 0 }

unfoldable pub view : Option (List ℕ) → ℕ → List ℕ
view none offset = []
view (some s) offset = drop offset s

unfoldable pub str : Buffer → List ℕ
unfolding view
str b = view b.storage b.starting_offset

unfoldable pub size : Buffer → ℕ
unfolding str
size b = length (str b)

-- `at`, out of range an exception.
unfoldable pub get : List ℕ → ℕ → Option ℕ
get [] n = none
get (x ∷ xs) zero = some x
get (x ∷ xs) (suc n) = get xs n

unfoldable pub at : Buffer → ℕ → Option ℕ
unfolding get str
at b n = get (str b) n

-- `if (_storage and _starting_offset == _storage->size()) _storage.reset()`.
unfoldable pub release : Option (List ℕ) → ℕ → Option (List ℕ)
release none offset = none
release (some s) offset = if offset == length s then none else some s

-- `none` stands for the exception.
unfoldable pub remove_prefix : Buffer → ℕ → Option Buffer
unfolding size release
remove_prefix b n =
    if ltb (size b) n
    then none
    else some (record {
      storage = release b.storage (b.starting_offset + n);
      starting_offset = b.starting_offset + n;
    })

-- `BufferList` is the queue of its buffers.
abbrev pub BufferList : Type 0
BufferList = List Buffer

unfoldable pub append : BufferList → BufferList → BufferList
append bs [] = bs
append bs (c ∷ cs) = append (bs ++ (c ∷ [])) cs

-- `operator Buffer`.
unfoldable pub to_buffer : BufferList → Option Buffer
unfolding default_buffer
to_buffer [] = some default_buffer
to_buffer (b ∷ []) = some b
to_buffer (b ∷ c ∷ bs) = none

unfoldable pub concatenate_from : List ℕ → BufferList → List ℕ
unfolding str
concatenate_from ret [] = ret
concatenate_from ret (b ∷ bs) = concatenate_from (ret ++ str b) bs

unfoldable pub concatenate : BufferList → List ℕ
unfolding concatenate_from
concatenate bs = concatenate_from [] bs

unfoldable pub size_from : ℕ → BufferList → ℕ
unfolding size
size_from ret [] = ret
size_from ret (b ∷ bs) = size_from (ret + size b) bs

unfoldable pub list_size : BufferList → ℕ
unfolding size_from
list_size bs = size_from 0 bs

-- The first buffer after its own `remove_prefix`.
unfoldable pub put_front : BufferList → Option Buffer → Option BufferList
put_front bs none = none
put_front bs (some b) = some (b ∷ bs)

-- `BufferList::remove_prefix`: a round takes a buffer off the front, or ends.
unfoldable pub list_remove_prefix : BufferList → ℕ → Option BufferList
unfolding size put_front remove_prefix
list_remove_prefix [] n = if n == 0 then some [] else none
list_remove_prefix (b ∷ bs) n =
    let rest = list_remove_prefix bs (n - size b) in
    if n == 0
    then some (b ∷ bs)
    else (if ltb n (size b) then put_front bs (remove_prefix b n) else rest)
