-- ===== src/RedisClient/Scan/Sweep.antt =====
-- DeleteRoomsForServer of src/server/redis_client.cpp leaves no room of its pod that SCAN lists.
use pokemon_cpp_server.Common.{
  ℕ, zero, suc, ◌≤◌, ◌≡◌, refl, sym, ◌∙◌, ap, ◌⊎◌, inl, inr, none, some, Bool, true, false, List,
  [], ◌∷◌, length, arith, subst,
}
use pokemon_cpp_server.Text.{Text, codes, c_str, eq_refl}
use pokemon_cpp_server.Text.Number.{strtoull, decimal}
use pokemon_cpp_server.Exec.{Exec, ok, continue}
use pokemon_cpp_server.External.Json.{Json}
use pokemon_cpp_server.External.Hiredis.{Hiredis, Replies, string, element}
use pokemon_cpp_server.External.Server.{Server, Reads, text, Listed, here, there, past}
use pokemon_cpp_server.RedisClient.{send, when_connected, command_key}
use pokemon_cpp_server.RedisClient.Scan.{
  is_command_key, scan_loop, each_key, use_key, use_value, delete_if_owned, delete_rooms_for_server,
}
use pokemon_cpp_server.RedisClient.Scan.Returns.{use_key-Returns}
use pokemon_cpp_server.RedisClient.Scan.Owned.{Owned, Shrunk, true-Owned}
use pokemon_cpp_server.RedisClient.Scan.Frame.{
  use_key-Keeps, each_key-Keeps, same-Shrunk, scan_loop-Keeps,
}
use pokemon_cpp_server.RedisClient.Scan.Walk.{
  Walk, last, more, sweep, scanned, scan_loop-last, scan_loop-more, each_key-result, scan_loop-Walk,
}

-- SCAN lists the key on one of the pages.
pub data ListedIn (key : Text) : List Replies → Type 0 where
  first : (p : Replies) (ps : List Replies) → Listed key p → ListedIn key (p ∷ ps)
  next : (p : Replies) (ps : List Replies) → ListedIn key ps → ListedIn key (p ∷ ps)

module _ (j : Json) (h : Hiredis) (pod_ip : Text) where
  -- Nothing is asked of a listed key.
  abbrev Any : Text → Type 0
  Any k = Unit {0}

  abbrev delete : Bool → Text → Text → Exec h.Conn Bool
  delete = sweep j h pod_ip

  abbrev past_page : ℕ → h.Conn → h.Conn
  past_page = scanned j h pod_ip

  module _ (server : Server h) (reads : Reads server) (before : h.Conn) (key value : Text)
      (room : is_command_key key ≡ false) (mine : Owned j pod_ip value) where
    -- The room is there, or it is gone.
    abbrev Ready : h.Conn → Type 0
    Ready c = (server.entry c (c_str key) ≡ some (text value)) ⊎ (server.entry c (c_str key) ≡ none)

    abbrev Gone : h.Conn → Type 0
    Gone c = server.entry c (c_str key) ≡ none

    stays-Gone : (c c' : h.Conn) → Shrunk j h server pod_ip Any c c' → Gone c → Gone c'
    stays-Gone c c' v g = elim (v (c_str key)) [ inl same ↦ same ∙ g | inr r ↦ r.0 ]

    stays-Ready : (c c' : h.Conn) → Shrunk j h server pod_ip Any c c' → Ready c → Ready c'
    stays-Ready c c' v (inl e) = elim (v (c_str key)) [
      | inl same ↦ inl (same ∙ e)
      | inr r ↦ inr r.0
    ]
    stays-Ready c c' v (inr g) = inr (stays-Gone c c' v g)

    deleted :
        (any : Bool) (c : h.Conn)
        → delete_if_owned j h pod_ip any key value c
          ≡ (ok true, (h.command c (codes "DEL" ∷ c_str key ∷ c_str (command_key key) ∷ [])).1)
    unfolding delete_if_owned send
    deleted any c = rw (mine.parsed, true-Owned j h server pod_ip Any before value mine c) refl

    use_key-Gone : (any : Bool) (c : h.Conn) → Ready c → Gone (use_key h delete any key c).1
    unfolding use_key send
    use_key-Gone any c (inr g) =
        stays-Gone c _ (use_key-Keeps j h server pod_ip Any c reads any key tt c (λ i. inl refl)) g
    use_key-Gone any c (inl e) =
        let c1 = (h.command c (codes "GET" ∷ c_str key ∷ [])).1 in
        rw (room, use_key, reads.get_text c (c_str key) value e, use_value, deleted any c1)
          (server.del_entry c1 (c_str key) (c_str (command_key key)) (c_str key)
            ∙ rw (eq_refl (c_str key)) refl)

    -- A list of keys, after its first one.
    each_key-string :
        (k : Text) (rest : Replies) (any : Bool) (c : h.Conn)
        → (b : Bool) × (each_key h delete (element (string k) rest) any c
            ≡ each_key h delete rest b (use_key h delete any k c).1)
    unfolding each_key
    each_key-string k rest any c =
        let r = use_key-Returns j h pod_ip any k c in
        (
          r.0,
          ap (λ o. continue o (λ next. each_key h delete rest next) (use_key h delete any k c).1)
              r.1,
        )

    each_key-stays :
        (keys : Replies) (any : Bool) (c : h.Conn) → Gone c → Gone (each_key h delete keys any c).1
    each_key-stays keys any c g =
        stays-Gone c _
          (each_key-Keeps j h server pod_ip Any c reads keys any (λ k. λ i. tt) c (λ i. inl refl)) g

    each_key-Ready :
        (keys : Replies) (any : Bool) (c : h.Conn)
        → Ready c
        → Ready (each_key h delete keys any c).1
    each_key-Ready keys any c g =
        stays-Ready c _
          (each_key-Keeps j h server pod_ip Any c reads keys any (λ k. λ i. tt) c (λ i. inl refl)) g

    each_key-Gone :
        (keys : Replies) (any : Bool) (c : h.Conn)
        → Listed key keys
        → Ready c
        → Gone (each_key h delete keys any c).1
    unfolding each_key
    each_key-Gone keys any c (here rest) r =
        let s = each_key-string key rest any c in
        rw (s.1) (each_key-stays rest s.0 _ (use_key-Gone any c r))
    each_key-Gone keys any c (there (string k) rest l) r =
        let s = each_key-string k rest any c in
        rw (s.1) (
          each_key-Gone rest s.0 _ l (
            stays-Ready c _ (use_key-Keeps j h server pod_ip Any c reads any k tt c (λ i. inl refl))
              r))
    each_key-Gone keys any c (there e rest l) r = each_key-Gone rest any c l r
    each_key-Gone keys any c (past rest l) r = each_key-Gone rest any c l r

    past_page-Ready : (cursor : ℕ) (c : h.Conn) → Ready c → Ready (past_page cursor c)
    past_page-Ready cursor c r =
        stays-Ready c _
          (same-Shrunk j h server pod_ip Any c c _ (reads.scan_entry c (decimal cursor))
            (λ i. inl refl))
          r

    only_page : (p : Replies) → ListedIn key (p ∷ []) → Listed key p
    only_page p (first _ _ l) = l
    only_page p (next _ _ x) = elim x [ ]

    -- The loop leaves the room gone.
    scan_loop-Gone :
        (fuel cursor : ℕ) (any : Bool) (c : h.Conn) (ps : List Replies)
        → Walk j h pod_ip cursor any c ps
        → length ps ≤ fuel
        → ListedIn key ps
        → Ready c
        → Gone (scan_loop h delete fuel cursor any c).1
    scan_loop-Gone zero cursor any c ps (last _ _ _ t keys p z) l i r = absurd (omega arith)
    scan_loop-Gone zero cursor any c ps (more _ _ b _ c' t keys rest p nz e w) l i r =
        absurd (omega arith)
    scan_loop-Gone (suc f) cursor any c ps (last _ _ _ t keys p z) l i r =
        let k = each_key-result j h pod_ip keys any (past_page cursor c) in
        rw (scan_loop-last j h pod_ip f cursor any k.0 c _ t keys p z k.1) (
          each_key-Gone keys any (past_page cursor c) (only_page keys i)
            (past_page-Ready cursor c r))
    scan_loop-Gone (suc f) cursor any c ps (more _ _ b _ c' t keys rest p nz e w) l (first _ _ i)
          r =
        rw (scan_loop-more j h pod_ip f cursor any b c c' t keys p nz e) (
          stays-Gone c' _
            (scan_loop-Keeps j h server pod_ip Any c' reads
              (λ c. λ cursor. λ next. λ keys. λ e. λ k. λ i. tt) f (strtoull t) b c'
              (λ i. inl refl))
            (subst Gone (ap (λ x. x.1) e)
              (each_key-Gone keys any (past_page cursor c) i (past_page-Ready cursor c r))))
    scan_loop-Gone (suc f) cursor any c ps (more _ _ b _ c' t keys rest p nz e w) l (next _ _ i) r =
        rw (scan_loop-more j h pod_ip f cursor any b c c' t keys p nz e) (
          scan_loop-Gone f (strtoull t) b c' rest w (omega arith) i (
            subst Ready (ap (λ x. x.1) e)
              (each_key-Ready keys any (past_page cursor c) (past_page-Ready cursor c r))))

    -- On an open connection to a server that obeys the laws of GET, SCAN and DEL, and whose SCAN comes
    -- to cursor 0 after some pages, DeleteRoomsForServer returns if its fuel is at least the number
    -- of pages; and a key that one of the pages lists, that is no command key and whose text names
    -- this pod, is then gone.
    pub delete_rooms_for_server_sweeps :
        (fuel : ℕ) (ps : List Replies)
        → Walk j h pod_ip 0 false before ps
        → length ps ≤ fuel
        → ListedIn key ps
        → server.entry before (c_str key) ≡ some (text value)
        → (b : Bool) × (c : h.Conn) × (delete_rooms_for_server j h fuel pod_ip
              (record { context = some before })
            ≡ (ok b, record { context = some c }))
          × (server.entry c (c_str key) ≡ none)
    unfolding delete_rooms_for_server when_connected
    delete_rooms_for_server_sweeps fuel ps w l i e =
        let r = scan_loop-Walk j h pod_ip fuel 0 false before ps w l in
        (
          r.0,
          r.1,
          ap (λ x. (x.0, record { context = some x.1 })) r.2,
          sym (ap (λ x. server.entry x.1 (c_str key)) r.2)
              ∙ scan_loop-Gone fuel 0 false before ps w l i (inl e),
        )
