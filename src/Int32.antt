-- ===== src/Int32.antt =====
-- C++ `int` (32 bits, two's complement) as a bit pattern below 2 ^ 32, with the conversions and
-- operations the program applies to it. Overflow wraps round, as the compiled code does.
use pokemon_cpp_server.Common.{
  ℕ, ◌+◌, ◌-◌, ◌%◌, ◌^◌, ◌<◌, ◌≡◌, Bool, arith, ltb, eqb, if◌then◌else◌,
}

abbrev pub word : ℕ
word = 2 ^ 32

abbrev pub half : ℕ
half = 2 ^ 31

-- An int that is not negative.
abbrev pub IsNonneg : ℕ → Type 0
IsNonneg n = n < half

-- i + 1, i++, fetch_add(1)
abbrev pub inc : ℕ → ℕ
inc i = (i + 1) % word

-- i - 1, i--, fetch_sub(1)
abbrev pub dec : ℕ → ℕ
dec i = (i + word - 1) % word

-- static_cast<size_t>(i): the sign is extended to 64 bits.
abbrev pub to_size : ℕ → ℕ
to_size i = if ltb i half then i else i + 2 ^ 64 - word

-- i < j on signed values
abbrev pub lt_int : ℕ → ℕ → Bool
lt_int i j = ltb ((i + half) % word) ((j + half) % word)

-- i % d == 0 for a positive literal d: the remainder of the absolute value
abbrev pub divides_int : ℕ → ℕ → Bool
divides_int d i = if ltb i half then eqb (i % d) 0 else eqb ((word - i) % d) 0

pub dec-inc : (i : ℕ) → i < word → dec (inc i) ≡ i
dec-inc i h = omega arith

pub lt_int-nonneg : (i j : ℕ) → i < half → j < half → lt_int i j ≡ ltb i j
lt_int-nonneg i j h k = ground arith
