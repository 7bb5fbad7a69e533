-- ===== src/Metrics/Response.antt =====
-- What a client of the metrics port reads, and what the numbers count.
use pokemon_cpp_server.Common.{
  ℕ, ◌+◌, ◌<◌, ◌^◌, ◌≡◌, refl, ◌∙◌, true, List, [], ◌∷◌, ◌++◌, arith, length, if◌then◌else◌,
  Bool-cases, inl, inr, eqb, suc, subst, sym, ap, Bool, false,
}
use mathlib.Core.Bool.{false≢true}
use mathlib.Core.List.{append_assoc}
use pokemon_cpp_server.Text.{Text, codes}
use pokemon_cpp_server.Text.Number.{decimal, strtoull, strtoull-decimal}
use pokemon_cpp_server.Int32.{half, inc}
use pokemon_cpp_server.Exec.{done, Attempt, attempt_bind, threw}
use pokemon_cpp_server.External.Json.{Json}
use pokemon_cpp_server.Metrics.{
  http_response, crlf, count_active, is_active_snapshot, status_is_active, counts,
}

-- The lines above the body.
abbrev pub header : Text → Text → Text → Text
header status_line content_type size =
    status_line
    ++ crlf
    ++ codes "Content-Type: "
    ++ content_type
    ++ crlf
    ++ codes "Content-Length: "
    ++ size
    ++ crlf
    ++ crlf

-- A response with a body shorter than 2 ^ 64 bytes is its header and its body, and the number in
-- the header reads back as the length of the body.
pub http_response-length :
    (status_line content_type body : Text)
    → length body < 2 ^ 64
    → (size : Text) × (http_response status_line content_type body
        ≡ header status_line content_type size ++ body)
      × (strtoull size ≡ length body)
unfolding http_response
http_response-length status_line content_type body b =
    (decimal (length body), simp append_assoc, strtoull-decimal (length body) b)

-- The text parses to a value whose "status" reads as the int 1.
pub record Active (j : Json) (value : Text) : Type 0 where
  pub state : j.Value
  pub parsed : j.parse value ≡ done state
  pub has_status : j.contains state (codes "status") ≡ true
  pub status : j.Value
  pub status_member : j.member state (codes "status") ≡ done status
  pub is_one : j.get_int status ≡ done 1

-- So many of the rooms are active.
pub data Counted (j : Json) : List (Text × Text) → ℕ → Type 0 where
  nobody : Counted j [] 0
  active :
      {rest : List (Text × Text)} {n : ℕ} (key value : Text)
      → Active j value
      → Counted j rest n
      → Counted j ((key, value) ∷ rest) (suc n)
  idle :
      {rest : List (Text × Text)} {n : ℕ} (key value : Text)
      → ¬ Active j value
      → Counted j rest n
      → Counted j ((key, value) ∷ rest) n

module _ (j : Json) where
  get_int-Active :
      (value : Text) (v m : j.Value) (r : Attempt ℕ)
      → j.parse value ≡ done v
      → j.contains v (codes "status") ≡ true
      → j.member v (codes "status") ≡ done m
      → j.get_int m ≡ r
      → counts j (attempt_bind r (λ n. done (eqb n 1))) ≡ true
      → Active j value
  unfolding counts
  get_int-Active value v m (done n) p c q e t =
      let one : n ≡ 1 = ground arith in
      record {
        state = v;
        parsed = p;
        has_status = c;
        status = m;
        status_member = q;
        is_one = e ∙ ap done one;
      }
  get_int-Active value v m (threw w) p c q e t = absurd (ground arith)

  member-Active :
      (value : Text) (v : j.Value) (r : Attempt j.Value)
      → j.parse value ≡ done v
      → j.contains v (codes "status") ≡ true
      → j.member v (codes "status") ≡ r
      → counts j (attempt_bind r (λ m. attempt_bind (j.get_int m) (λ n. done (eqb n 1)))) ≡ true
      → Active j value
  unfolding counts
  member-Active value v (done m) p c q t = get_int-Active value v m (j.get_int m) p c q refl t
  member-Active value v (threw w) p c q t = absurd (ground arith)

  parse-Active :
      (value : Text) (r : Attempt j.Value)
      → j.parse value ≡ r
      → counts j (attempt_bind r (status_is_active j)) ≡ true
      → Active j value
  unfolding counts status_is_active
  parse-Active value (done v) p t = elim (Bool-cases (j.contains v (codes "status"))) [
    | inl c ↦ member-Active value v (j.member v (codes "status")) p c refl (
        subst
          (λ (b : Bool).
            counts j (
              if b
              then attempt_bind (j.member v (codes "status"))
                  (λ m. attempt_bind (j.get_int m) (λ n. done (eqb n 1)))
              else done false)
            ≡ true)
          c t)
    | inr c ↦ absurd (
        false≢true (
          subst
            (λ (b : Bool).
              counts j (
                if b
                then attempt_bind (j.member v (codes "status"))
                    (λ m. attempt_bind (j.get_int m) (λ n. done (eqb n 1)))
                else done false)
              ≡ true)
            c t))
  ]
  parse-Active value (threw w) p t = absurd (ground arith)

  is_active_snapshot-Active : (value : Text) → is_active_snapshot j value ≡ true → Active j value
  unfolding is_active_snapshot
  is_active_snapshot-Active value t = parse-Active value (j.parse value) refl t

  Active-is_active_snapshot : (value : Text) → Active j value → is_active_snapshot j value ≡ true
  unfolding is_active_snapshot status_is_active counts
  Active-is_active_snapshot value a = rw (a.parsed, a.has_status, a.status_member, a.is_one) refl

  add_suc : (n m : ℕ) → n + 1 + m ≡ n + suc m
  add_suc n m = omega arith

  inc-below : (n : ℕ) → n + 1 < half → inc n ≡ n + 1
  inc-below n h = omega arith

  abbrev Counts : List (Text × Text) → ℕ → ℕ → Type 0
  Counts l n k = (m : ℕ) × Counted j l m × (k ≡ n + m)

  one_more :
      (n : ℕ) (key value : Text) (rest : List (Text × Text))
      → inc n ≡ n + 1
      → Active j value
      → Counts rest (n + 1) (count_active j (n + 1) rest)
      → Counts ((key, value) ∷ rest) n (count_active j (inc n) rest)
  one_more n key value rest i a (m, c, e) =
      (suc m, active key value a c, ap (λ k. count_active j k rest) i ∙ e ∙ add_suc n m)

  no_more :
      (n : ℕ) (key value : Text) (rest : List (Text × Text))
      → ¬ Active j value
      → Counts rest n (count_active j n rest)
      → Counts ((key, value) ∷ rest) n (count_active j n rest)
  no_more n key value rest a (m, c, e) = (m, idle key value a c, e)

  count_active-from :
      (n : ℕ) (l : List (Text × Text)) → n + length l < half → Counts l n (count_active j n l)
  unfolding count_active
  count_active-from n [] h = (0, nobody, omega arith)
  count_active-from n ((key, value) ∷ rest) h = elim (Bool-cases (is_active_snapshot j value)) [
    | inl e ↦ rw e (
        one_more n key value rest (inc-below n (omega arith)) (is_active_snapshot-Active value e)
          (count_active-from (n + 1) rest (omega arith)))
    | inr e ↦ rw e (
        no_more n key value rest (λ a. false≢true (sym e ∙ Active-is_active_snapshot value a))
          (count_active-from n rest (omega arith)))
  ]

  -- For fewer snapshots than the limit of an int, the loop counts exactly the active ones.
  pub count_active-Counted :
      (l : List (Text × Text)) → length l < half → Counted j l (count_active j 0 l)
  count_active-Counted l h =
      let r = count_active-from 0 l (omega arith) in
      subst (Counted j l) (sym (r.2 ∙ omega arith)) r.1
