-- ===== src/RedisClient/Scan/Walk.antt =====
-- The pages of SCAN that DeleteRoomsForServer of src/server/redis_client.cpp walks through.
use pokemon_cpp_server.Common.{
  ℕ, zero, suc, ◌≤◌, ◌≡◌, ◌≢◌, refl, ◌∙◌, ap, some, Bool, true, false, List, [], ◌∷◌, length, arith,
  eqb,
}
use pokemon_cpp_server.Text.{Text}
use pokemon_cpp_server.Text.Number.{strtoull}
use pokemon_cpp_server.Exec.{Exec, ok}
use pokemon_cpp_server.External.Json.{Json}
use pokemon_cpp_server.External.Hiredis.{Hiredis, Replies}
use pokemon_cpp_server.RedisClient.Scan.{scan_page, scan_step, scan_loop, scan_args, each_key}
use pokemon_cpp_server.RedisClient.Scan.Pages.{page}
use pokemon_cpp_server.RedisClient.Scan.Returns.{body, each_key-Returns}

module _ (j : Json) (h : Hiredis) (pod_ip : Text) where
  abbrev pub sweep : Bool → Text → Text → Exec h.Conn Bool
  sweep = body j h pod_ip

  -- SCAN answers with these pages, each asked for with the cursor of the page before and after the
  -- keys of that page have been treated, the last one with cursor 0.
  pub data Walk : ℕ → Bool → h.Conn → List Replies → Type 0 where
    last :
        (cursor : ℕ) (any : Bool) (c : h.Conn) (text : Text) (keys : Replies)
        → (h.command c (scan_args cursor)).0 ≡ some (page text keys)
        → strtoull text ≡ 0
        → Walk cursor any c (keys ∷ [])
    more :
        (cursor : ℕ) (any next : Bool) (c c' : h.Conn) (text : Text) (keys : Replies)
        (ps : List Replies)
        → (h.command c (scan_args cursor)).0 ≡ some (page text keys)
        → strtoull text ≢ 0
        → each_key h sweep keys any (h.command c (scan_args cursor)).1 ≡ (ok next, c')
        → Walk (strtoull text) next c' ps
        → Walk cursor any c (keys ∷ ps)

  scan_step-last :
      (go : ℕ → Bool → Exec h.Conn Bool) (any b : Bool) (c c' : h.Conn) (t : Text) (keys : Replies)
      → strtoull t ≡ 0
      → each_key h sweep keys any c ≡ (ok b, c')
      → scan_step h sweep go any (scan_page (some (page t keys))) c ≡ (ok b, c')
  unfolding scan_step scan_page
  scan_step-last go any b c c' t keys z e =
      let test : eqb (strtoull t) 0 ≡ true = ground arith in rw (e, test) refl

  scan_step-more :
      (go : ℕ → Bool → Exec h.Conn Bool) (any b : Bool) (c c' : h.Conn) (t : Text) (keys : Replies)
      → strtoull t ≢ 0
      → each_key h sweep keys any c ≡ (ok b, c')
      → scan_step h sweep go any (scan_page (some (page t keys))) c ≡ go (strtoull t) b c'
  unfolding scan_step scan_page
  scan_step-more go any b c c' t keys nz e =
      let test : eqb (strtoull t) 0 ≡ false = ground arith in rw (e, test) refl

  abbrev pub scanned : ℕ → h.Conn → h.Conn
  scanned cursor c = (h.command c (scan_args cursor)).1

  pub scan_loop-last :
      (f cursor : ℕ) (any b : Bool) (c c' : h.Conn) (t : Text) (keys : Replies)
      → (h.command c (scan_args cursor)).0 ≡ some (page t keys)
      → strtoull t ≡ 0
      → each_key h sweep keys any (scanned cursor c) ≡ (ok b, c')
      → scan_loop h sweep (suc f) cursor any c ≡ (ok b, c')
  unfolding scan_loop
  scan_loop-last f cursor any b c c' t keys p z e =
      rw p (scan_step-last (scan_loop h sweep f) any b (scanned cursor c) c' t keys z e)

  pub scan_loop-more :
      (f cursor : ℕ) (any b : Bool) (c c' : h.Conn) (t : Text) (keys : Replies)
      → (h.command c (scan_args cursor)).0 ≡ some (page t keys)
      → strtoull t ≢ 0
      → each_key h sweep keys any (scanned cursor c) ≡ (ok b, c')
      → scan_loop h sweep (suc f) cursor any c ≡ scan_loop h sweep f (strtoull t) b c'
  unfolding scan_loop
  scan_loop-more f cursor any b c c' t keys p nz e =
      rw p (scan_step-more (scan_loop h sweep f) any b (scanned cursor c) c' t keys nz e)

  pub each_key-result :
      (keys : Replies) (any : Bool) (c : h.Conn)
      → (b : Bool) × (each_key h sweep keys any c ≡ (ok b, (each_key h sweep keys any c).1))
  each_key-result keys any c =
      let r = each_key-Returns j h pod_ip keys any c in
      (r.0, ap (λ o. (o, (each_key h sweep keys any c).1)) r.1)

  -- With a unit of fuel for each page the loop returns.
  pub scan_loop-Walk :
      (fuel cursor : ℕ) (any : Bool) (c : h.Conn) (ps : List Replies)
      → Walk cursor any c ps
      → length ps ≤ fuel
      → (b : Bool) × (c' : h.Conn) × (scan_loop h sweep fuel cursor any c ≡ (ok b, c'))
  scan_loop-Walk zero cursor any c ps (last _ _ _ t keys p z) l = absurd (omega arith)
  scan_loop-Walk zero cursor any c ps (more _ _ b _ c' t keys rest p nz e w) l =
      absurd (omega arith)
  scan_loop-Walk (suc f) cursor any c ps (last _ _ _ t keys p z) l =
      let r = each_key-result keys any (scanned cursor c) in
      (r.0, _, scan_loop-last f cursor any r.0 c _ t keys p z r.1)
  scan_loop-Walk (suc f) cursor any c ps (more _ _ b _ c' t keys rest p nz e w) l =
      let r = scan_loop-Walk f (strtoull t) b c' rest w (omega arith) in
      (r.0, r.1, scan_loop-more f cursor any b c c' t keys p nz e ∙ r.2)
