-- ===== src/Exec.antt =====
-- C++ code that may throw. `Attempt` is the result of pure code; `Exec S` is code over a state `S`,
-- which keeps what was written before a throw.
use pokemon_cpp_server.Text.{Text}

-- A value, or an exception derived from std::exception with its what().
pub data Attempt {ℓ} (A : Type ℓ) : Type ℓ where
  done : A → Attempt A
  threw : Text → Attempt A

-- `fault` is undefined behaviour, such as a read through a null pointer; `unfinished` says that the
-- fuel of a loop ran out.
pub data Outcome {ℓ} (A : Type ℓ) : Type ℓ where
  ok : A → Outcome A
  thrown : Text → Outcome A
  fault : Outcome A
  unfinished : Outcome A

abbrev pub attempt_bind {ℓ κ} : {A : Type ℓ} {B : Type κ} → Attempt A → (A → Attempt B) → Attempt B
attempt_bind (done a) f = f a
attempt_bind (threw w) f = threw w

abbrev pub of_attempt {ℓ} : {A : Type ℓ} → Attempt A → Outcome A
of_attempt (done a) = ok a
of_attempt (threw w) = thrown w

abbrev pub Exec : Type 0 → Type 0 → Type 0
Exec S A = S → Outcome A × S

module _ {S A : Type 0} where
  abbrev pub pure : A → Exec S A
  pure a s = (ok a, s)

  abbrev pub gets : (S → A) → Exec S A
  gets f s = (ok (f s), s)

  abbrev pub lift : Attempt A → Exec S A
  lift r s = (of_attempt r, s)

  abbrev pub crash : Exec S A
  crash s = (fault, s)

  abbrev pub catch_with : (Text → Exec S A) → Outcome A → Exec S A
  catch_with h (ok a) s = (ok a, s)
  catch_with h (thrown w) s = h w s
  catch_with h fault s = (fault, s)
  catch_with h unfinished s = (unfinished, s)

  -- try { m } catch (const std::exception &e) { h(e.what()) }
  abbrev pub try_catch : Exec S A → (Text → Exec S A) → Exec S A
  try_catch m h s = let r = m s in catch_with h r.0 r.1

module _ {S A B : Type 0} where
  abbrev pub continue : Outcome A → (A → Exec S B) → Exec S B
  continue (ok a) f s = f a s
  continue (thrown w) f s = (thrown w, s)
  continue fault f s = (fault, s)
  continue unfinished f s = (unfinished, s)

  infixl 5 ◌>>=◌ ◌>>◌
  abbrev pub ◌>>=◌ : Exec S A → (A → Exec S B) → Exec S B
  ◌>>=◌ m f s = let r = m s in continue r.0 f r.1

  abbrev pub ◌>>◌ : Exec S A → Exec S B → Exec S B
  m >> n = m >>= λ _. n
