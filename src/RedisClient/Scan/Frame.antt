-- ===== src/RedisClient/Scan/Frame.antt =====
-- What DeleteRoomsForServer of src/server/redis_client.cpp leaves alone.
use pokemon_cpp_server.Common.{
  ℕ, zero, suc, ◌≡◌, refl, sym, ◌∙◌, inl, inr, ap, ◌⊎◌, true, Option, none, some, Bool, false, [],
  ◌∷◌, arith, if◌then◌else◌, if-elim, Option-cases, eqb,
}
use pokemon_cpp_server.Text.{Text, codes, c_str, starts_with}
use pokemon_cpp_server.Exec.{Exec, pure, ◌>>=◌}
use pokemon_cpp_server.External.Json.{Json}
use pokemon_cpp_server.External.Hiredis.{
  Hiredis, Reply, Replies, string, array, end, missing, element,
}
use pokemon_cpp_server.External.Server.{Server, Reads, text, Listed, here, there, past}
use pokemon_cpp_server.Text.Number.{decimal}
use pokemon_cpp_server.RedisClient.{send, when_connected}
use pokemon_cpp_server.RedisClient.Scan.{
  is_command_key, scan_page, scan_step, scan_loop, scan_args, each_key, use_key, use_value,
  page_keys, page_cursor, reply_str, delete_if_owned, delete_rooms_for_server,
}
use pokemon_cpp_server.RedisClient.Scan.Owned
use pokemon_cpp_server.RedisClient.Scan.Owned.{Removable, bind-Keeps, delete_if_owned-Keeps}

module _ (j : Json) (h : Hiredis) (server : Server h) (pod_ip : Text) (IsListed : Text → Type 0)
    (before : h.Conn) where
  abbrev Shrunk : h.Conn → Type 0
  Shrunk = Owned.Shrunk j h server pod_ip IsListed before

  abbrev Keeps : {A : Type 0} → Exec h.Conn A → Type 0
  Keeps = Owned.Keeps j h server pod_ip IsListed before

  pub same-Shrunk :
      (c c1 : h.Conn) → ((i : Text) → server.entry c1 i ≡ server.entry c i) → Shrunk c → Shrunk c1
  same-Shrunk c c1 e v i = elim (v i) [ inl k ↦ inl (e i ∙ k) | inr k ↦ inr (e i ∙ k.0, k.1) ]

  -- A text that is there now was there before.
  stored_before :
      (c : h.Conn) (k v : Text)
      → Shrunk c
      → server.entry c k ≡ some (text v)
      → server.entry before k ≡ some (text v)
  stored_before c k v w e = elim (w k) [
    | inl same ↦ sym same ∙ e
    | inr gone ↦ absurd (let x : none ≡ some (text v) = sym gone.0 ∙ e in ground arith)
  ]

  module _ (reads : Reads server) where
    abbrev body : Bool → Text → Text → Exec h.Conn Bool
    body = delete_if_owned j h pod_ip

    use_value-Keeps :
        (any : Bool) (key : Text) (r : Option Reply)
        → IsListed key
        → is_command_key key ≡ false
        → ((v : Text) → r ≡ some (string v) → server.entry before (c_str key) ≡ some (text v))
        → Keeps (use_value h body any key r)
    unfolding use_value
    use_value-Keeps any key (some (string v)) l room f c w =
        delete_if_owned-Keeps j h server pod_ip IsListed before any key v l (f v refl) room c w
    use_value-Keeps any key none l room f c w = w
    use_value-Keeps any key (some r) l room f c w = w

    pub use_key-Keeps : (any : Bool) (key : Text) → IsListed key → Keeps (use_key h body any key)
    unfolding use_key send
    use_key-Keeps any key l c w =
        if-elim (λ (m : Exec h.Conn Bool). Shrunk (m c).1) (is_command_key key) (pure any)
          (send h (codes "GET" ∷ c_str key ∷ []) >>= λ reply. use_value h body any key reply)
          (λ e. w)
          (λ room.
            use_value-Keeps any key (h.command c (codes "GET" ∷ c_str key ∷ [])).0 l room
              (λ v. λ e. stored_before c (c_str key) v w (reads.get_reply c (c_str key) v e))
              (h.command c (codes "GET" ∷ c_str key ∷ [])).1
              (same-Shrunk c _ (reads.get_entry c (c_str key)) w))

    pub each_key-Keeps :
        (keys : Replies) (any : Bool)
        → ((key : Text) → Listed key keys → IsListed key)
        → Keeps (each_key h body keys any)
    unfolding each_key
    each_key-Keeps end any l c w = w
    each_key-Keeps (missing rest) any l c w =
        each_key-Keeps rest any (λ k. λ i. l k (past rest i)) c w
    each_key-Keeps (element (string key) rest) any l c w =
        bind-Keeps j h server pod_ip IsListed before (use_key h body any key)
          (λ next. each_key h body rest next) (use_key-Keeps any key (l key (here rest)))
          (λ next. each_key-Keeps rest next (λ k. λ i. l k (there (string key) rest i))) c w
    each_key-Keeps (element other rest) any l c w =
        each_key-Keeps rest any (λ k. λ i. l k (there other rest i)) c w

    page_keys-Keeps :
        (k : Option Reply) (any : Bool)
        → ((keys : Replies) → k ≡ some (array keys) → (key : Text) → Listed key keys → IsListed key)
        → Keeps (page_keys h body k any)
    unfolding page_keys
    page_keys-Keeps none any l c w = w
    page_keys-Keeps (some (array keys)) any l c w = each_key-Keeps keys any (l keys refl) c w
    page_keys-Keeps (some other) any l c w = w

    page_cursor-Keeps : (k : Option Reply) → Keeps (page_cursor {Conn = h.Conn} k)
    unfolding page_cursor
    page_cursor-Keeps k c w = elim (Option-cases (reply_str k)) [
      | inl e ↦ rw (e, page_cursor) w
      | inr e ↦ rw (e.1, page_cursor) w
    ]

    -- What is known of the keys on a page whose cursor can be read.
    abbrev PageListed : Option (Option Reply × Option Reply) → Type 0
    PageListed o =
        (next : Reply) (keys : Replies)
        → o ≡ some (some next, some (array keys))
        → (key : Text) → Listed key keys
        → IsListed key

    scan_step-Keeps :
        (go : ℕ → Bool → Exec h.Conn Bool) (any : Bool) (o : Option (Option Reply × Option Reply))
        → PageListed o
        → ((cursor : ℕ) (next : Bool) → Keeps (go cursor next))
        → Keeps (scan_step h body go any o)
    unfolding scan_step page_cursor reply_str
    scan_step-Keeps go any none l f c w = w
    scan_step-Keeps go any (some (none, keys)) l f c w = w
    scan_step-Keeps go any (some (some k, keys)) l f c w =
        let last = λ (cursor : ℕ).
          λ (next : Bool). if eqb cursor 0 then pure {S = h.Conn} next else go cursor next in
        bind-Keeps j h server pod_ip IsListed before (page_cursor (some k))
          (λ cursor. page_keys h body keys any >>= λ next. last cursor next)
          (page_cursor-Keeps (some k))
          (λ cursor.
            bind-Keeps j h server pod_ip IsListed before (page_keys h body keys any) (last cursor)
              (page_keys-Keeps keys any (λ ks. λ e. l k ks (ap (λ x. some (some k, x)) e)))
              (λ next.
                if-elim Keeps (eqb cursor 0) (pure next) (go cursor next) (λ e. λ c. λ w. w)
                  (λ e. f cursor next)))
          c w

    pub scan_loop-Keeps :
        ((c : h.Conn) (cursor : ℕ) → PageListed (scan_page (h.command c (scan_args cursor)).0))
        → (fuel cursor : ℕ) (any : Bool) → Keeps (scan_loop h body fuel cursor any)
    unfolding scan_loop
    scan_loop-Keeps l zero cursor any c w = w
    scan_loop-Keeps l (suc fuel) cursor any c w =
        scan_step-Keeps (scan_loop h body fuel) any (scan_page (h.command c (scan_args cursor)).0)
          (l c cursor) (λ k. λ next. scan_loop-Keeps l fuel k next)
          (h.command c (scan_args cursor)).1
          (same-Shrunk c _ (reads.scan_entry c (decimal cursor)) w)

-- A key of a room, or of a room's command.
abbrev pub IsRoomKey : Text → Type 0
IsRoomKey key = starts_with key (codes "pokemon:room:") ≡ true

page_reply :
    (r : Option Reply) (next : Reply) (keys : Replies)
    → scan_page r ≡ some (some next, some (array keys))
    → (rest : Replies) × (r ≡ some (array (element next (element (array keys) rest))))
unfolding scan_page
page_reply (some (array (element c (element k rest)))) next keys e = (rest, ground arith)
page_reply r next keys e = absurd (ground arith)

module _ (j : Json) (h : Hiredis) (server : Server h) (pod_ip : Text) (before : h.Conn) where
  -- On an open connection to a server that obeys the laws of GET, SCAN and DEL, DeleteRoomsForServer
  -- leaves every entry as it was, but for those it removes; and what it removes is the entry of a
  -- key pokemon:room:... whose text is JSON with this pod's address as "server_id", or the entry of
  -- that key's command key. This holds however the call ends.
  pub delete_rooms_for_server_frame :
      (fuel : ℕ)
      → Reads server
      → (c : h.Conn) × ((delete_rooms_for_server j h fuel pod_ip
            (record { context = some before })).1
          ≡ record { context = some c })
        × ((i : Text)
            → (server.entry c i ≡ server.entry before i)
              ⊎ ((server.entry c i ≡ none) × Removable j h server pod_ip IsRoomKey before i))
  unfolding delete_rooms_for_server when_connected
  delete_rooms_for_server_frame fuel reads = (
    _,
    refl,
    scan_loop-Keeps j h server pod_ip IsRoomKey before reads
        (λ c. λ cursor. λ next. λ keys. λ e. λ key. λ i.
          let r = page_reply (h.command c (scan_args cursor)).0 next keys e in
          reads.scan_match c (decimal cursor) key next keys r.0 r.1 i)
        fuel 0 false before (λ i. inl refl),
  )
