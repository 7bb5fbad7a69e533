-- ===== src/Map/Laws.antt =====
-- What a map holds after each operation.
use mathlib.Core.Option
use pokemon_cpp_server.Common.{
  suc, ◌≡◌, refl, inl, inr, [], ◌∷◌, none, some, arith, length, if◌then◌else◌, ap, subst,
}
use pokemon_cpp_server.Text.{Text, ◌==◌, eq_iff, eq_refl, Text-cases}
use pokemon_cpp_server.Map.{Map, lookup, insert, erase, map_values, Distinct}

module _ {ℓ} {V : Type ℓ} where
  pub lookup-insert :
      (new i : Text) (fresh : V) (m : Map V)
      → lookup i (insert new fresh m) ≡ (if new == i then some fresh else lookup i m)
  unfolding lookup insert
  lookup-insert new i fresh [] = refl
  lookup-insert new i fresh ((key, held) ∷ rest) =
      let ih = lookup-insert new i fresh rest in
      ground (arith, ih, eq_iff key new, eq_iff key i, eq_iff new i)

  pub lookup-erase :
      (gone i : Text) (m : Map V)
      → Distinct m
      → lookup i (erase gone m) ≡ (if gone == i then none else lookup i m)
  unfolding lookup erase
  lookup-erase gone i [] d = ground arith
  lookup-erase gone i ((key, held) ∷ rest) d =
      let ih = lookup-erase gone i rest d.1 in
      ground (arith, ih, eq_iff key gone, eq_iff key i, eq_iff gone i)

  pub Distinct-insert : (k : Text) (v : V) (m : Map V) → Distinct m → Distinct (insert k v m)
  unfolding insert lookup
  Distinct-insert k v [] d = (refl, tt)
  Distinct-insert k v ((i, w) ∷ m) d =
      ground (arith, eq_iff i k, eq_iff k i, Distinct-insert k v m d.1, lookup-insert k i v m)

  pub Distinct-erase : (k : Text) (m : Map V) → Distinct m → Distinct (erase k m)
  unfolding erase
  Distinct-erase k [] d = tt
  Distinct-erase k ((i, w) ∷ m) d = ground (arith, Distinct-erase k m d.1, lookup-erase k i m d.1)

  pub length-insert_new :
      (k : Text) (v : V) (m : Map V) → lookup k m ≡ none → length (insert k v m) ≡ suc (length m)
  unfolding insert lookup
  length-insert_new k v [] h = refl
  length-insert_new k v ((i, w) ∷ m) h = ground (arith, length-insert_new k v m)

  pub length-insert_old :
      (k : Text) (v w : V) (m : Map V) → lookup k m ≡ some w → length (insert k v m) ≡ length m
  unfolding insert lookup
  length-insert_old k v w [] h = ground arith
  length-insert_old k v w ((i, u) ∷ m) h = ground (arith, length-insert_old k v w m)

  pub length-erase :
      (k : Text) (v : V) (m : Map V) → lookup k m ≡ some v → suc (length (erase k m)) ≡ length m
  unfolding erase lookup
  length-erase k v [] h = ground arith
  length-erase k v ((i, w) ∷ m) h = ground (arith, length-erase k v m)

  -- Erasing a key that was not there before its insertion undoes the insertion.
  pub erase-insert_new :
      (k : Text) (v : V) (m : Map V) → lookup k m ≡ none → erase k (insert k v m) ≡ m
  unfolding erase insert lookup
  erase-insert_new k v [] h = ground (arith, eq_refl k)
  erase-insert_new k v ((i, w) ∷ m) h = ground (arith, eq_iff i k, erase-insert_new k v m)

  pub lookup-map_values :
      (f : V → V) (k : Text) (m : Map V) → lookup k (map_values f m) ≡ Option.map f (lookup k m)
  unfolding lookup map_values
  lookup-map_values f k [] = refl
  lookup-map_values f k ((j, v) ∷ m) = ground (arith, lookup-map_values f k m)

  pub Distinct-map_values : (f : V → V) (m : Map V) → Distinct m → Distinct (map_values f m)
  unfolding map_values
  Distinct-map_values f [] d = tt
  Distinct-map_values f ((j, v) ∷ m) d =
      ground (arith, Distinct-map_values f m d.1, lookup-map_values f j m)

  pub length-map_values : (f : V → V) (m : Map V) → length (map_values f m) ≡ length m
  unfolding map_values
  length-map_values f [] = refl
  length-map_values f ((j, v) ∷ m) = ap suc (length-map_values f m)

module _ {ℓ κ} {V : Type ℓ} (P : Text → V → Type κ) where
  -- Every entry satisfies `P`.
  abbrev pub AllEntries : Map V → Type κ
  AllEntries [] = Unit
  AllEntries ((j, v) ∷ m) = P j v × AllEntries m

  pub insert-AllEntries :
      (k : Text) (v : V) (m : Map V) → P k v → AllEntries m → AllEntries (insert k v m)
  unfolding insert
  insert-AllEntries k v [] p a = (p, tt)
  insert-AllEntries k v ((j, w) ∷ m) p a =
      let rest = insert-AllEntries k v m p a.1 in
      elim (Text-cases j k) [
        | inl (e, q) ↦ rw e (subst (λ t. P t v) q p, a.1)
        | inr e ↦ rw e (a.0, rest)
      ]

  pub erase-AllEntries : (k : Text) (m : Map V) → AllEntries m → AllEntries (erase k m)
  unfolding erase
  erase-AllEntries k [] a = tt
  erase-AllEntries k ((j, w) ∷ m) a = ground (arith, erase-AllEntries k m a.1)

  pub lookup-AllEntries :
      (k : Text) (v : V) (m : Map V) → AllEntries m → lookup k m ≡ some v → P k v
  unfolding lookup
  lookup-AllEntries k v [] a h = ground arith
  lookup-AllEntries k v ((j, w) ∷ m) a h =
      let rest = lookup-AllEntries k v m a.1 in
      elim (Text-cases j k) [
        | inl (e, q) ↦
            let same : some w ≡ some v = rw e at h in let u : w ≡ v = cc in rw q (subst (P j) u a.0)
        | inr e ↦ rest (rw e at h)
      ]

  pub map_values-AllEntries :
      (f : V → V)
      → ((k : Text) (v : V) → P k v → P k (f v))
      → (m : Map V) → AllEntries m
      → AllEntries (map_values f m)
  unfolding map_values
  map_values-AllEntries f step [] a = tt
  map_values-AllEntries f step ((j, v) ∷ m) a = (step j v a.0, map_values-AllEntries f step m a.1)
