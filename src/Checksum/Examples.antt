-- ===== src/Checksum/Examples.antt =====
-- Runs of `InternetChecksum` of libsponge/util/util.cc.
use csed.Base.{◌≡◌, ◌≤◌, ◌<◌, ◌+◌, ◌%◌, refl, arith, [], ◌∷◌}
use csed.Checksum.{fold, value, new, add}
use csed.Checksum.Laws.{fold_terminates, value-add_value}

-- The first round leaves 65536, the second 1.
fold_terminates_example :
    (fold 10 0xffff0001 ≡ fold 2 0xffff0001)
    × (fold 2 0xffff0001 ≤ 0xffff)
    × (fold 2 0xffff0001 % 0xffff ≡ 0xffff0001 % 0xffff)
    × (0 < 0xffff0001 → 0 < fold 2 0xffff0001)
fold_terminates_example = fold_terminates 8 0xffff0001 (omega arith)

value_add_value_run : value (new (0x1fffe + value (new 0x1fffe))) ≡ 0
value_add_value_run = value-add_value 0x1fffe (omega arith)

-- An odd number of bytes: the last is the high one of a word.
odd_bytes : value (add (new 0) (1 ∷ 2 ∷ 3 ∷ [])) ≡ 0xfbfd
unfolding value add new
odd_bytes = refl
