-- ===== src/Wrapping.antt =====
-- libsponge/wrapping_integers.hh and .cc: 32-bit sequence numbers relative to an initial one.
pub mod Laws
mod Examples
use csed.Base.{ℕ, ◌+◌, ◌-◌, ◌%◌, ◌^◌, Bool, not, ◌==◌, leb, ltb, if◌then◌else◌, u32_mod, u64_mod}

-- `WrappingInt32`, by its `_raw_value`, a `uint32_t`.
abbrev pub WrappingInt32 : Type 0
WrappingInt32 = ℕ

unfoldable pub wrap : ℕ → WrappingInt32 → WrappingInt32
wrap n isn = (n % u32_mod + isn % u32_mod) % u32_mod

-- `operator-(WrappingInt32, WrappingInt32)`: the difference's bit pattern, an `int32_t`.
unfoldable pub diff32 : WrappingInt32 → WrappingInt32 → ℕ
diff32 a b = (a + u32_mod - b) % u32_mod

-- The widening of an `int32_t` to an `int64_t`, both as bit patterns.
unfoldable pub sign_extend : ℕ → ℕ
sign_extend d = if ltb d (2 ^ 31) then d else d + (u64_mod - u32_mod)

-- An `int64_t` is negative when its bit pattern is at least 2^63. (Signed overflow, which C++
-- leaves undefined, is taken as two's complement; the laws about `unwrap` say where there is none.)
unfoldable pub unwrap : WrappingInt32 → WrappingInt32 → ℕ → ℕ
unfolding wrap diff32 sign_extend
unwrap n isn checkpoint =
    let sum = (checkpoint + sign_extend (diff32 n (wrap checkpoint isn))) % u64_mod in
    (sum + (if leb (2 ^ 63) sum then u32_mod else 0)) % u64_mod

-- `operator==`, `operator!=`, `operator+` and `operator-(WrappingInt32, uint32_t)`.
unfoldable pub eq32 : WrappingInt32 → WrappingInt32 → Bool
eq32 a b = a == b

unfoldable pub ne32 : WrappingInt32 → WrappingInt32 → Bool
unfolding eq32
ne32 a b = not (eq32 a b)

unfoldable pub add32 : WrappingInt32 → ℕ → WrappingInt32
add32 a b = (a + b) % u32_mod

-- `a + -b`, with `-b` the negation of a `uint32_t`.
unfoldable pub sub32 : WrappingInt32 → ℕ → WrappingInt32
unfolding add32
sub32 a b = add32 a ((u32_mod - b) % u32_mod)
