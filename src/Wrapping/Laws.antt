-- ===== src/Wrapping/Laws.antt =====
-- What `wrap` and `unwrap` of libsponge/wrapping_integers.cc promise each other.
use csed.Base.{ℕ, ◌+◌, ◌-◌, ◌^◌, ◌≤◌, ◌<◌, ◌≡◌, arith, u32_mod, ltb, leb, if◌then◌else◌}
use csed.Wrapping.{wrap, diff32, unwrap, add32, sub32}

-- The distance between two absolute sequence numbers.
abbrev pub dist : ℕ → ℕ → ℕ
dist a b = (a - b) + (b - a)

-- A checkpoint from which `unwrap` can go down or up by 2^31 with no signed overflow.
abbrev pub IsSmall : ℕ → Type 0
IsSmall checkpoint = checkpoint + 2 ^ 31 ≤ 2 ^ 63

pub wrap-lt : (n isn : ℕ) → wrap n isn < u32_mod
unfolding wrap
wrap-lt n isn = omega arith

-- `unwrap` in plain arithmetic: forward, back, or (from a checkpoint below the step) forward.
pub unwrap_cases :
    (n isn cp : ℕ)
    → n < u32_mod
    → IsSmall cp
    → let d = diff32 n (wrap cp isn) in
      unwrap n isn cp ≡ (
        if ltb d (2 ^ 31)
        then cp + d
        else (if leb u32_mod (cp + d) then cp + d - u32_mod else cp + d))
unfolding unwrap
unwrap_cases n isn cp hn hc = ground arith

-- For 32-bit `n` and `isn` and a checkpoint of at most 2^63 - 2^31, the absolute sequence number
-- that `unwrap` returns wraps to `n` again.
pub wrap-unwrap :
    (n isn cp : ℕ) → n < u32_mod → isn < u32_mod → IsSmall cp → wrap (unwrap n isn cp) isn ≡ n
unfolding wrap diff32
wrap-unwrap n isn cp hn hi hc = ground (arith, unwrap_cases n isn cp hn hc)

-- For a checkpoint of at most 2^63 - 2^31, `unwrap` gives back every absolute sequence number
-- that is less than 2^31 away from the checkpoint.
pub unwrap-wrap :
    (x isn cp : ℕ)
    → isn < u32_mod
    → IsSmall cp
    → dist x cp < 2 ^ 31
    → unwrap (wrap x isn) isn cp ≡ x
unfolding wrap diff32
unwrap-wrap x isn cp hi hc hx = ground (arith, unwrap_cases (wrap x isn) isn cp (wrap-lt x isn) hc)

-- For 32-bit `n` and `isn` and a checkpoint of at most 2^63 - 2^31, the absolute sequence number that
-- `unwrap` returns wraps to `n`, and no other that wraps to `n` is closer to the checkpoint.
pub unwrap_closest :
    (n isn cp x : ℕ)
    → n < u32_mod
    → isn < u32_mod
    → IsSmall cp
    → wrap x isn ≡ n
    → (wrap (unwrap n isn cp) isn ≡ n) × (dist (unwrap n isn cp) cp ≤ dist x cp)
unfolding wrap diff32
unwrap_closest n isn cp x hn hi hc e =
    (wrap-unwrap n isn cp hn hi hc, ground (arith, unwrap_cases n isn cp hn hc))

-- From 2^63 on the signed test misfires: for a checkpoint from 2^63 up to 2^64 - 2^32 (exclusive),
-- `unwrap` of the checkpoint's own sequence number lands 2^32 above the checkpoint.
pub unwrap_high :
    (isn cp : ℕ)
    → isn < u32_mod
    → 2 ^ 63 ≤ cp
    → cp + u32_mod < 2 ^ 64
    → unwrap (wrap cp isn) isn cp ≡ cp + u32_mod
unfolding unwrap
unwrap_high isn cp hi lo hh = ground arith

-- For `b` below 2^32, `operator+` of a wrapped number and `b` is the wrapped sum, and `operator-`
-- of `b` undoes it.
pub add32-wrap :
    (n isn b : ℕ)
    → b < u32_mod
    → (add32 (wrap n isn) b ≡ wrap (n + b) isn) × (sub32 (add32 (wrap n isn) b) b ≡ wrap n isn)
unfolding wrap add32 sub32
add32-wrap n isn b h = (omega arith, omega arith)
