-- ===== src/Text/Number.antt =====
-- Numbers in texts: printf's %llu and %d, strtoull and std::stoi (base 10).
use native.Mathlib.Nat.{pow-suc}
use pokemon_cpp_server.Common.{
  ℕ, zero, suc, ◌+◌, ◌-◌, ◌*◌, ◌/◌, ◌%◌, ◌^◌, ◌<◌, ◌≡◌, refl, [], ◌∷◌, Bool, true, false, ◌&&◌,
  ◌||◌, arith, ltb, leb, eqb, if◌then◌else◌, Option, none, some, ap, ◌∙◌, Bool-cases, inl, inr,
}
use pokemon_cpp_server.Text.{Text}

-- The digits of `n` before `rest`, at most `fuel` of them; 20 are enough for 64 bits.
unfoldable pub digits_before : ℕ → ℕ → Text → Text
digits_before zero n rest = rest
digits_before (suc fuel) n rest =
    let more = digits_before fuel (n / 10) ((b'0' + n % 10) ∷ rest) in
    if ltb n 10 then (b'0' + n) ∷ rest else more

-- %llu, and %d for an int that is not negative
unfoldable pub decimal : ℕ → Text
unfolding digits_before
decimal n = digits_before 20 n []

unfoldable pub is_digit : ℕ → Bool
is_digit c = leb b'0' c && leb c b'9'

-- isspace in the "C" locale
unfoldable pub is_space : ℕ → Bool
is_space c = eqb c 32 || (leb 9 c && leb c 13)

unfoldable pub skip_spaces : Text → Text
unfolding is_space
skip_spaces [] = []
skip_spaces (c ∷ s) = if is_space c then skip_spaces s else c ∷ s

-- The value of the digits at the front, added to `acc`.
unfoldable pub digits_value : ℕ → Text → ℕ
unfolding is_digit
digits_value acc [] = acc
digits_value acc (c ∷ s) = if is_digit c then digits_value (acc * 10 + (c - b'0')) s else acc

unfoldable pub starts_digit : Text → Bool
unfolding is_digit
starts_digit [] = false
starts_digit (c ∷ s) = is_digit c

-- The sign, if any: true for a minus.
unfoldable pub split_sign : Text → Bool × Text
split_sign [] = (false, [])
split_sign (c ∷ s) =
    if eqb c b'-' then (true, s) else if eqb c b'+' then (false, s) else (false, c ∷ s)

abbrev pub ullong_max : ℕ
ullong_max = 2 ^ 64 - 1

-- std::strtoull(s, nullptr, 10): 0 without digits, ULLONG_MAX out of range, a minus negates.
unfoldable pub strtoull : Text → ℕ
unfolding skip_spaces digits_value split_sign
strtoull text =
    let signed = split_sign (skip_spaces text) in
    let value = digits_value 0 signed.1 in
    if ltb ullong_max value
    then ullong_max
    else if signed.0
    then (2 ^ 64 - value) % 2 ^ 64
    else value

-- std::stoi(s): none where it throws (no digits, or out of the range of int); the value is the
-- 32-bit pattern.
unfoldable pub stoi : Text → Option ℕ
unfolding skip_spaces digits_value split_sign starts_digit
stoi text =
    let signed = split_sign (skip_spaces text) in
    let value = digits_value 0 signed.1 in
    if starts_digit signed.1
    then (if signed.0
        then (if ltb (2 ^ 31) value then none else some ((2 ^ 32 - value) % 2 ^ 32))
        else if leb (2 ^ 31) value
        then none
        else some value)
    else none

-- A rest that does not go on with a digit.
abbrev Stops : Text → Type 0
Stops rest = starts_digit rest ≡ false

Stops-value : (acc : ℕ) (rest : Text) → Stops rest → digits_value acc rest ≡ acc
unfolding digits_value starts_digit
Stops-value acc [] h = refl
Stops-value acc (c ∷ s) h = ground arith

is_digit-digit : (d : ℕ) → d < 10 → is_digit (b'0' + d) ≡ true
unfolding is_digit
is_digit-digit d h = ground arith

digit_value :
    (acc d : ℕ) (rest : Text)
    → d < 10
    → digits_value acc ((b'0' + d) ∷ rest) ≡ digits_value (acc * 10 + d) rest
unfolding digits_value
digit_value acc d rest h = let c : b'0' + d - b'0' ≡ d = omega arith in rw (is_digit-digit d h, c)

below-pow : (f n : ℕ) → n < 10 ^ suc f → n / 10 < 10 ^ f
below-pow f n h = omega (arith, pow-suc 10 f)

digits_value-digits_before :
    (fuel n : ℕ) (rest : Text)
    → n < 10 ^ fuel
    → digits_value 0 (digits_before fuel n rest) ≡ digits_value n rest
unfolding digits_before
digits_value-digits_before zero n rest h = let z : n ≡ 0 = omega arith in rw z
digits_value-digits_before (suc f) n rest h = elim (Bool-cases (ltb n 10)) [
  | inl small ↦
      rw (small, digits_before)
        (digit_value 0 n rest (ground arith) ∙ ap (λ t. digits_value t rest) (omega arith))
  | inr large ↦
      let whole : n / 10 * 10 + n % 10 ≡ n = omega arith in
      rw (large, digits_before)
        (digits_value-digits_before f (n / 10) ((b'0' + n % 10) ∷ rest) (below-pow f n h)
          ∙ digit_value (n / 10) (n % 10) rest (omega arith)
          ∙ ap (λ t. digits_value t rest) whole)
]

-- Every text that `digits_before` makes begins with a digit, so it has no space or sign in front.
digits_before-starts :
    (fuel n : ℕ) (c : ℕ) (rest : Text)
    → is_digit c ≡ true
    → starts_digit (digits_before fuel n (c ∷ rest)) ≡ true
unfolding digits_before starts_digit
digits_before-starts zero n c rest h = h
digits_before-starts (suc f) n c rest h = ground (
  arith,
  is_digit-digit n,
  digits_before-starts f (n / 10) (b'0' + n % 10) (c ∷ rest)
      (is_digit-digit (n % 10) (omega arith)),
)

pub decimal-starts : (n : ℕ) → starts_digit (decimal n) ≡ true
unfolding decimal starts_digit
decimal-starts n = ground (
  arith,
  is_digit-digit n,
  digits_before-starts 19 (n / 10) (b'0' + n % 10) [] (is_digit-digit (n % 10) (omega arith)),
)

no_space : (s : Text) → starts_digit s ≡ true → skip_spaces s ≡ s
unfolding starts_digit skip_spaces
no_space [] h = refl
no_space (c ∷ s) h = ground arith

no_sign : (s : Text) → starts_digit s ≡ true → split_sign s ≡ (false, s)
unfolding starts_digit split_sign
no_sign [] h = refl
no_sign (c ∷ s) h = ground arith

decimal_value : (n : ℕ) → n < 2 ^ 64 → digits_value 0 (decimal n) ≡ n
unfolding decimal starts_digit
decimal_value n h = digits_value-digits_before 20 n [] (omega arith) ∙ Stops-value n [] refl

-- strtoull reads back the number that %llu printed, for every 64-bit number.
pub strtoull-decimal : (n : ℕ) → n < 2 ^ 64 → strtoull (decimal n) ≡ n
unfolding strtoull
strtoull-decimal n h =
    let start = decimal-starts n in
    rw (no_space (decimal n) start, no_sign (decimal n) start, decimal_value n h) (ground arith)

-- std::stoi reads back a printed number up to INT_MAX.
pub stoi-decimal : (n : ℕ) → n < 2 ^ 31 → stoi (decimal n) ≡ some n
unfolding stoi
stoi-decimal n h =
    let start = decimal-starts n in
    rw (no_space (decimal n) start, no_sign (decimal n) start, decimal_value n (omega arith), start)
      (ground arith)
