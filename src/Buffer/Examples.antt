-- ===== src/Buffer/Examples.antt =====
-- Runs of libsponge/util/buffer.cc.
use csed.Base.{◌≡◌, refl, none, some, [], ◌∷◌, ◌++◌, length}
use mathlib.Core.Option
use csed.Buffer.{
  BufferList, from_string, append, concatenate, list_size, list_remove_prefix, at, to_buffer,
}
use csed.Buffer.Views.{drop_all}
use csed.Buffer.Laws.{BufferList_lem}

abbrev front : BufferList
unfolding from_string
front = from_string (1 ∷ 2 ∷ 3 ∷ []) ∷ from_string (4 ∷ []) ∷ []

abbrev back : BufferList
unfolding from_string
back = record { storage = some (0 ∷ 5 ∷ 6 ∷ []); starting_offset = 1 } ∷ []

BufferList_lem_example :
    (concatenate (append front back) ≡ concatenate front ++ concatenate back)
    × (list_size front ≡ length (concatenate front))
    × (Option.map concatenate (list_remove_prefix front 3) ≡ drop_all (concatenate front) 3)
BufferList_lem_example = BufferList_lem front back 3

-- The first buffer is dropped whole, and its string with it.
drops_whole_buffers : Option.map concatenate (list_remove_prefix front 3) ≡ some (4 ∷ [])
unfolding list_remove_prefix concatenate front
drops_whole_buffers = refl

-- A list of several buffers has no conversion to one, and there is no byte at the end of a buffer.
conversions :
    (to_buffer front ≡ none)
    × (to_buffer back ≡ some (record { storage = some (0 ∷ 5 ∷ 6 ∷ []); starting_offset = 1 }))
    × (at (record { storage = some (0 ∷ 5 ∷ 6 ∷ []); starting_offset = 1 }) 2 ≡ none)
unfolding to_buffer at front back
conversions = (refl, refl, refl)
