-- ===== src/Prelude/Words.antt =====
-- Machine words: `usize` and `u64` are 64 bits wide, and a release build wraps on overflow.
use Prim.Native.Nat.{ℕ, ◌+◌, ◌-◌, ◌*◌, ◌/◌, ◌%◌, ◌^◌, min}

abbrev pub word : ℕ
word = 2 ^ 64

abbrev pub max_word : ℕ
max_word = 2 ^ 64 - 1

-- `a + b` and `a * b` on `usize`.
abbrev pub wadd : ℕ → ℕ → ℕ
wadd a b = (a + b) % word

abbrev pub wmul : ℕ → ℕ → ℕ
wmul a b = (a * b) % word

-- `saturating_add`, `saturating_mul`; `saturating_sub` is `-`.
abbrev pub saturating_add : ℕ → ℕ → ℕ
saturating_add a b = min (a + b) max_word

abbrev pub saturating_mul : ℕ → ℕ → ℕ
saturating_mul a b = min (a * b) max_word

-- `a.div_ceil(b)` for a `b` that is not 0.
abbrev pub div_ceil : ℕ → ℕ → ℕ
div_ceil a b = (a + (b - 1)) / b

-- `a - b` on `usize`.
abbrev pub wsub : ℕ → ℕ → ℕ
wsub a b = (a + word - b) % word
