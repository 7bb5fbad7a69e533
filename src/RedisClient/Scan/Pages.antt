-- ===== src/RedisClient/Scan/Pages.antt =====
-- The SCAN loop of RedisClient::GetAllRoomSnapshots on a server that answers in pages.
use pokemon_cpp_server.Common.{
  ℕ, zero, suc, ◌≤◌, ◌≡◌, ◌≢◌, refl, sym, ◌∙◌, ap, false, Option, none, some, List, [], ◌∷◌, ◌++◌,
  arith, eqb, length, if◌then◌else◌, Bool-cases, inl, inr,
}
use mathlib.Core.List.{append_assoc, append-nil}
use pokemon_cpp_server.Text.{Text, codes, c_str}
use pokemon_cpp_server.Text.Number.{strtoull}
use pokemon_cpp_server.Exec.{Exec, ok}
use pokemon_cpp_server.External.Hiredis.{
  Hiredis, Reply, Replies, string, array, end, missing, element,
}
use pokemon_cpp_server.RedisClient.Scan.{
  is_command_key, scan_page, scan_step, scan_loop, scan_args, each_key, use_key, use_value,
  keep_snapshot, get_all_room_snapshots,
}

-- The reply that holds a cursor and the keys of a page.
abbrev pub page : Text → Replies → Reply
page cursor keys = array (element (string cursor) (element (array keys) end))

module _ (h : Hiredis) where
  -- GET changes nothing on the server.
  abbrev pub ReadsOnly : h.Conn → Type 0
  ReadsOnly c = (key : Text) → (h.command c (codes "GET" ∷ key ∷ [])).1 ≡ c

  abbrev as_entry : Text → Option Reply → List (Text × Text)
  as_entry key (some (string value)) = (key, value) ∷ []
  as_entry key _ = []

  -- What the snapshots of a key are: its pair, if it is no command key and holds a text.
  abbrev pub key_snapshots : h.Conn → Text → List (Text × Text)
  key_snapshots c key =
      if is_command_key key then [] else as_entry key (h.command c (codes "GET" ∷ c_str key ∷ [])).0

  abbrev pub snapshots_of : h.Conn → Replies → List (Text × Text)
  snapshots_of c end = []
  snapshots_of c (missing rest) = snapshots_of c rest
  snapshots_of c (element (string key) rest) = key_snapshots c key ++ snapshots_of c rest
  snapshots_of c (element other rest) = snapshots_of c rest

  abbrev pub all_snapshots : h.Conn → List Replies → List (Text × Text)
  all_snapshots c [] = []
  all_snapshots c (keys ∷ ps) = snapshots_of c keys ++ all_snapshots c ps

  -- From a cursor the server answers SCAN with these pages, the last one with cursor 0, and is left
  -- as it was.
  pub data Pages (c : h.Conn) : ℕ → List Replies → Type 0 where
    last :
        (cursor : ℕ) (text : Text) (keys : Replies)
        → h.command c (scan_args cursor) ≡ (some (page text keys), c)
        → strtoull text ≡ 0
        → Pages c cursor (keys ∷ [])
    more :
        (cursor : ℕ) (text : Text) (keys : Replies) (ps : List Replies)
        → h.command c (scan_args cursor) ≡ (some (page text keys), c)
        → strtoull text ≢ 0
        → Pages c (strtoull text) ps
        → Pages c cursor (keys ∷ ps)

  -- A step of the loops over keys that leaves the server alone and adds `new` to the snapshots.
  abbrev Adds :
      Exec h.Conn (List (Text × Text)) → List (Text × Text) → h.Conn → List (Text × Text) → Type 0
  Adds m acc c new = m c ≡ (ok (acc ++ new), c)

  abbrev keep : List (Text × Text) → Text → Text → Exec h.Conn (List (Text × Text))
  keep = keep_snapshot h

  use_value-Adds :
      (acc : List (Text × Text)) (key : Text) (r : Option Reply) (c : h.Conn)
      → Adds (use_value h keep acc key r) acc c (as_entry key r)
  unfolding use_value keep_snapshot
  use_value-Adds acc key (some (string v)) c = refl
  use_value-Adds acc key none c = simp append-nil
  use_value-Adds acc key (some r) c = simp append-nil

  use_key-Adds :
      (acc : List (Text × Text)) (key : Text) (c : h.Conn)
      → ReadsOnly c
      → Adds (use_key h keep acc key) acc c (key_snapshots c key)
  unfolding use_key
  use_key-Adds acc key c reads = elim (Bool-cases (is_command_key key)) [
    | inl e ↦ rw (e, use_key) (simp append-nil)
    | inr e ↦
        rw (e, use_key, reads (c_str key))
          (use_value-Adds acc key (h.command c (codes "GET" ∷ c_str key ∷ [])).0 c)
  ]

  each_key-Adds :
      (keys : Replies) (acc : List (Text × Text)) (c : h.Conn)
      → ReadsOnly c
      → Adds (each_key h keep keys acc) acc c (snapshots_of c keys)
  unfolding each_key
  each_key-Adds end acc c reads = simp append-nil
  each_key-Adds (missing rest) acc c reads = each_key-Adds rest acc c reads
  each_key-Adds (element (string key) rest) acc c reads =
      rw (use_key-Adds acc key c reads, each_key)
        (rw (each_key-Adds rest (acc ++ key_snapshots c key) c reads)
          (ap (λ l. (ok l, c)) (append_assoc acc (key_snapshots c key) (snapshots_of c rest))))
  each_key-Adds (element other rest) acc c reads = each_key-Adds rest acc c reads

  scan_step-last :
      (text : Text) (keys : Replies) (acc : List (Text × Text)) (c : h.Conn)
      (go : ℕ → List (Text × Text) → Exec h.Conn (List (Text × Text)))
      → ReadsOnly c
      → strtoull text ≡ 0
      → Adds
          (scan_step h keep go acc (scan_page (some (page text keys))))
          acc
          c
          (snapshots_of c keys)
  unfolding scan_step scan_page
  scan_step-last text keys acc c go reads z = rw (each_key-Adds keys acc c reads, z)

  scan_step-more :
      (text : Text) (keys : Replies) (acc : List (Text × Text)) (c : h.Conn)
      (go : ℕ → List (Text × Text) → Exec h.Conn (List (Text × Text)))
      → ReadsOnly c
      → strtoull text ≢ 0
      → scan_step h keep go acc (scan_page (some (page text keys))) c
        ≡ go (strtoull text) (acc ++ snapshots_of c keys) c
  unfolding scan_step scan_page
  scan_step-more text keys acc c go reads nz =
      let test : eqb (strtoull text) 0 ≡ false = ground arith in
      rw (each_key-Adds keys acc c reads, test)

  scan_loop-Pages :
      (fuel cursor : ℕ) (ps : List Replies) (acc : List (Text × Text)) (c : h.Conn)
      → ReadsOnly c
      → Pages c cursor ps
      → length ps ≤ fuel
      → Adds (scan_loop h keep fuel cursor acc) acc c (all_snapshots c ps)
  unfolding scan_loop
  scan_loop-Pages zero cursor ps acc c reads (last _ text keys e z) b = absurd (omega arith)
  scan_loop-Pages zero cursor ps acc c reads (more _ text keys rest e nz p) b = absurd (omega arith)
  scan_loop-Pages (suc f) cursor ps acc c reads (last _ text keys e z) b =
      rw (e, scan_loop)
        (scan_step-last text keys acc c (scan_loop h keep f) reads z
          ∙ ap (λ l. (ok (acc ++ l), c)) (sym (append-nil (snapshots_of c keys))))
  scan_loop-Pages (suc f) cursor ps acc c reads (more _ text keys rest e nz p) b =
      rw (e, scan_loop)
        (scan_step-more text keys acc c (scan_loop h keep f) reads nz
          ∙ scan_loop-Pages f (strtoull text) rest (acc ++ snapshots_of c keys) c reads p
              (omega arith)
          ∙ ap (λ l. (ok l, c)) (append_assoc acc (snapshots_of c keys) (all_snapshots c rest)))

  -- On a connected client whose server answers SCAN from cursor 0 with some pages and is left
  -- unchanged by reading, GetAllRoomSnapshots ends if its fuel is at least the number of pages, and
  -- returns the snapshots of all their keys in order.
  pub get_all_room_snapshots-Pages :
      (fuel : ℕ) (ps : List Replies) (c : h.Conn)
      → ReadsOnly c
      → Pages c 0 ps
      → length ps ≤ fuel
      → get_all_room_snapshots h fuel (record { context = some c })
        ≡ (ok (all_snapshots c ps), record { context = some c })
  unfolding get_all_room_snapshots
  get_all_room_snapshots-Pages fuel ps c reads p b = rw (scan_loop-Pages fuel 0 ps [] c reads p b)
