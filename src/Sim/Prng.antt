-- ===== src/Sim/Prng.antt =====
-- src/sim.ts: `mulberry32`. A 32-bit integer is its bit pattern, a number below 2 ^ 32; the value
-- that the source divides by 2 ^ 32 is kept whole.
use Prim.Native.Nat.{bit_or, bit_xor}
use front_desk_scheduler.Base.{ℕ, ◌+◌, ◌*◌, ◌/◌, ◌%◌, ◌^◌, ◌<◌, arith}

abbrev pub u32 : ℕ → ℕ
u32 n = n % 2 ^ 32

abbrev imul : ℕ → ℕ → ℕ
imul a b = u32 (a * b)

-- `x >>> k`.
abbrev shr : ℕ → ℕ → ℕ
shr x k = x / 2 ^ k

abbrev pub seed_state : ℕ → ℕ
seed_state seed = u32 seed

mix : ℕ → ℕ
mix a =
    let t = imul (bit_xor a (shr a 15)) (bit_or 1 a) in
    let t' = bit_xor (u32 (t + imul (bit_xor t (shr t 7)) (bit_or 61 t))) t in
    u32 (bit_xor t' (shr t' 14))

-- The value drawn, and the next state.
unfoldable pub draw : ℕ → ℕ × ℕ
unfolding mix
draw a = let a' = u32 (a + 0x6d2b79f5) in (mix a', a')

-- `Math.floor(rnd() * count)`: exact for the doubles while `count` is below 2 ^ 21.
abbrev pub pick_index : ℕ → ℕ → ℕ
pick_index value count = value * count / 2 ^ 32

pub draw_bound : (a : ℕ) → (draw a).0 < 2 ^ 32
unfolding draw
draw_bound a = omega arith
