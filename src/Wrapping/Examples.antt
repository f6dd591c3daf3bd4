-- ===== src/Wrapping/Examples.antt =====
-- Runs of the sequence number arithmetic of libsponge/wrapping_integers.cc, those of
-- tests/wrapping_integers_unwrap.cc among them.
use csed.Base.{◌≡◌, refl, ◌^◌, ◌+◌, ◌-◌, ◌*◌, ◌≤◌, arith}
use csed.Wrapping.{wrap, unwrap, add32, sub32}
use csed.Wrapping.Laws.{dist, wrap-unwrap, unwrap-wrap, unwrap_closest, unwrap_high, add32-wrap}

unwrap_runs :
    (unwrap 1 0 0 ≡ 1)
    × (unwrap 1 0 0xffff_ffff ≡ 2 ^ 32 + 1)
    × (unwrap 0xffff_fffe 0 (3 * 2 ^ 32) ≡ 3 * 2 ^ 32 - 2)
    × (unwrap 0xffff_ffff 10 (3 * 2 ^ 32) ≡ 3 * 2 ^ 32 - 11)
unfolding unwrap
unwrap_runs = (refl, refl, refl, refl)

wrap-unwrap_run : wrap (unwrap 5 7 (2 ^ 40)) 7 ≡ 5
wrap-unwrap_run = wrap-unwrap 5 7 (2 ^ 40) (omega arith) (omega arith) (omega arith)

unwrap-wrap_example : unwrap (wrap (2 ^ 40 - 9) 7) 7 (2 ^ 40) ≡ 2 ^ 40 - 9
unwrap-wrap_example = unwrap-wrap (2 ^ 40 - 9) 7 (2 ^ 40) (omega arith) (omega arith) (omega arith)

unwrap_closest_example :
    (wrap (unwrap 3 0 10) 0 ≡ 3) × (dist (unwrap 3 0 10) 10 ≤ dist (2 ^ 32 + 3) 10)
unfolding wrap
unwrap_closest_example =
    unwrap_closest 3 0 10 (2 ^ 32 + 3) (omega arith) (omega arith) (omega arith) refl

unwrap_high_example : unwrap (wrap (2 ^ 63) 0) 0 (2 ^ 63) ≡ 2 ^ 63 + 2 ^ 32
unwrap_high_example = unwrap_high 0 (2 ^ 63) (omega arith) (omega arith) (omega arith)

add32-wrap_run :
    (add32 (wrap 9 0xffff_fff8) 4 ≡ wrap 13 0xffff_fff8)
    × (sub32 (add32 (wrap 9 0xffff_fff8) 4) 4 ≡ wrap 9 0xffff_fff8)
unfolding wrap
add32-wrap_run = add32-wrap 9 0xffff_fff8 4 (omega arith)
