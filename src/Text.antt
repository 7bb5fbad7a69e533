-- ===== src/Text.antt =====
-- std::string as the program uses it: a list of bytes.
pub mod Number
use Prim.Native.Char.{code}
use Prim.Native.String.{String}
use pokemon_cpp_server.Common.{
  ℕ, ◌≡◌, refl, ◌↔◌, Bool, true, false, ◌&&◌, List, [], ◌∷◌, arith, eqb, subst, ◌⊎◌, inl, inr,
  Bool-cases, sym, if◌then◌else◌, length, take, All, suc, leb, ◌≢◌, ◌-◌, zero, ◌++◌, ap,
}

abbrev pub Text : Type 0
Text = List ℕ

-- The bytes of an ASCII literal. It is shut, so that proofs keep a literal folded.
unfoldable pub codes : String → Text
codes String.[] = []
codes (String.◌∷◌ c s) = code c ∷ codes s

-- operator==
infix 50 ◌==◌
unfoldable pub ◌==◌ : Text → Text → Bool
[] == [] = true
[] == (y ∷ ys) = false
(x ∷ xs) == [] = false
(x ∷ xs) == (y ∷ ys) = eqb x y && (xs == ys)

pub eq_refl : (s : Text) → (s == s) ≡ true
unfolding ◌==◌
eq_refl [] = refl
eq_refl (x ∷ xs) = ground (arith, eq_refl xs)

pub eq→≡ : (s t : Text) → (s == t) ≡ true → s ≡ t
unfolding ◌==◌
eq→≡ [] [] h = refl
eq→≡ [] (y ∷ ys) h = ground arith
eq→≡ (x ∷ xs) [] h = ground arith
eq→≡ (x ∷ xs) (y ∷ ys) h = ground (arith, eq→≡ xs ys)

pub eq_iff : (s t : Text) → ((s == t) ≡ true) ↔ (s ≡ t)
eq_iff s t = (eq→≡ s t, λ p. subst (λ u. (s == u) ≡ true) p (eq_refl s))

-- std::string::empty
unfoldable pub is_empty : Text → Bool
is_empty [] = true
is_empty (c ∷ s) = false

-- To split on whether two texts are the same.
pub Text-cases : (s t : Text) → (((s == t) ≡ true) × (t ≡ s)) ⊎ ((s == t) ≡ false)
Text-cases s t = elim (Bool-cases (s == t)) [ inl e ↦ inl (e, sym (eq→≡ s t e)) | inr e ↦ inr e ]

-- s.c_str() handed to code that reads up to the first NUL
unfoldable pub c_str : Text → Text
c_str [] = []
c_str (c ∷ s) = if eqb c 0 then [] else c ∷ c_str s

unfoldable pub drop : ℕ → Text → Text
drop zero s = s
drop (suc n) [] = []
drop (suc n) (c ∷ s) = drop n s

-- s.substr(0, n) == p for a text `p` of length n
unfoldable pub starts_with : Text → Text → Bool
unfolding ◌==◌
starts_with s p = take (length p) s == p

-- s.size() >= n && s.compare(s.size() - n, n, p) == 0 for a text `p` of length n
unfoldable pub ends_with : Text → Text → Bool
unfolding drop ◌==◌
ends_with s p = leb (length p) (length s) && (drop (length s - length p) s == p)

-- A text without a NUL.
abbrev pub NoNul : Text → Type 0
NoNul s = All (λ c. c ≢ 0) s

pub c_str-NoNul : (s : Text) → NoNul s → c_str s ≡ s
unfolding c_str
c_str-NoNul [] h = refl
c_str-NoNul (c ∷ s) h = ground (arith, c_str-NoNul s h.1)

pub NoNul-append : (s t : Text) → NoNul s → NoNul t → NoNul (s ++ t)
NoNul-append [] t h k = k
NoNul-append (c ∷ s) t h k = (h.0, NoNul-append s t h.1 k)

take-append : (p s : Text) → take (length p) (p ++ s) ≡ p
take-append [] s = refl
take-append (c ∷ p) s = ap (λ t. c ∷ t) (take-append p s)

pub drop-append : (p s : Text) → drop (length p) (p ++ s) ≡ s
unfolding drop
drop-append [] s = refl
drop-append (c ∷ p) s = drop-append p s

pub starts_with-append : (p s : Text) → starts_with (p ++ s) p ≡ true
unfolding starts_with
starts_with-append p s = rw (take-append p s) (eq_refl p)

take-append-drop : (n : ℕ) (s : Text) → take n s ++ drop n s ≡ s
unfolding drop
take-append-drop zero s = refl
take-append-drop (suc n) [] = refl
take-append-drop (suc n) (c ∷ s) = ap (λ t. c ∷ t) (take-append-drop n s)

-- What starts with `p` is `p` and what follows it.
pub starts_with-eq : (s p : Text) → starts_with s p ≡ true → p ++ drop (length p) s ≡ s
unfolding starts_with
starts_with-eq s p h =
    subst (λ t. t ++ drop (length p) s ≡ s) (eq→≡ (take (length p) s) p h)
      (take-append-drop (length p) s)

pub append_cancel_left : (p s t : Text) → p ++ s ≡ p ++ t → s ≡ t
append_cancel_left [] s t h = h
append_cancel_left (c ∷ p) s t h = append_cancel_left p s t (cc)

-- A NUL ends what `c_str` hands over.
pub c_str-cut : (s t : Text) → NoNul s → c_str (s ++ 0 ∷ t) ≡ s
unfolding c_str
c_str-cut [] t h = refl
c_str-cut (c ∷ s) t h = ground (arith, c_str-cut s t h.1)
