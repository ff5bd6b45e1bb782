-- ===== src/Server/Race.antt =====
-- Two goroutines of internal/server/server.go: a Hello that handle has let past kickedRecently, and a Kick
-- that comes before join takes the lock.
use rbr_mp_server.Common.{ℕ, ◌≡◌, refl, ap, ◌∙◌, List, none, some, false}
use rbr_mp_server.Common.Text.{Text}
use rbr_mp_server.Common.GoMap.{lookup, insert, delete}
use rbr_mp_server.Common.GoMap.Cases.{lookup-insert_self, lookup-delete_self}
use rbr_mp_server.Clock.{Time}
use rbr_mp_server.Protocol.Types.{Hello, type_hello}
use rbr_mp_server.Protocol.Decode.{ok, parse_header, decode_hello}
use rbr_mp_server.Server.Types.{UdpAddr, Client, Server}
use rbr_mp_server.Server.Bans.{get}
use rbr_mp_server.Server.Session.{store, join}
use rbr_mp_server.Server.Handle.{kicked_recently, dispatch, handle}
use rbr_mp_server.Server.Admin.{Library, find_client, kick, kick_client, reason_or, default_kick}
use rbr_mp_server.Server.Invariant.Console.{kick_found}
use rbr_mp_server.Server.Invariant.Datagram.{handle_accepted}
use rbr_mp_server.Server.KickWindow.{join_kicks}
use rbr_mp_server.Server.KickWindow.Admin.{kick_client_tables}

-- The part of `handle` before the lock of `join`: the tests that a Hello passes, and what it says.
pub record Passes (s : Server) (b : List ℕ) (addr : UdpAddr) (now : Time) (h : Hello) : Type 0 where
  pub free : get s.bans addr.ip ≡ none
  pub hello : parse_header b ≡ ok type_hello
  pub welcome : kicked_recently s addr now ≡ false
  pub read : decode_hello b ≡ (h, none)

-- A Hello that passes goes on to `join`.
handle-Passes :
    (s : Server) (b : List ℕ) (addr : UdpAddr) (now : Time) (h : Hello)
    → Passes s b addr now h
    → handle s b addr now ≡ join s addr h now
handle-Passes s b addr now h p =
    handle_accepted s b addr now type_hello p.free p.hello
    ∙ unfold dispatch in rw (p.welcome, p.read) refl

-- A session is there after `join`, whatever was there before.
join_session :
    (s : Server) (addr : UdpAddr) (h : Hello) (now : Time)
    → (d : Client) × (lookup addr.text (join s addr h now).0.clients ≡ some d)
unfolding join store
join_session s addr h now = (_, lookup-insert_self _ addr.text _)

-- The check of the kick window and the join are two critical sections. Where the Hello of a player
-- has passed the check, so that handle goes on to `join`, a Kick then removes the player, and
-- `join` runs after that, the player is back in the table, although the address is noted as
-- kicked.
pub kick_race :
    (lib : Library) (s : Server) (b : List ℕ) (addr : UdpAddr) (now at : Time) (h : Hello)
    (who reason : Text) (c : Client)
    → Passes s b addr now h
    → find_client lib s who ≡ some c
    → c.addr_key ≡ addr.text
    → let t = (kick lib s who reason at).0 in
      (handle s b addr now ≡ join s addr h now)
      × (lookup addr.text t.clients ≡ none)
      × (lookup addr.text (join t addr h now).0.recently_kicked ≡ some at)
      × ((d : Client) × (lookup addr.text (join t addr h now).0.clients ≡ some d))
kick_race lib s b addr now at h who reason c p e k = (
  handle-Passes s b addr now h p,
  rw (kick_found lib s who reason at c e) (
      ap (λ (m : List (Text × Client)). lookup addr.text m)
        (tables.0 ∙ ap (λ (x : Text). delete x s.clients) k)
      ∙ lookup-delete_self s.clients addr.text),
  ap (λ (m : List (Text × Time)). lookup addr.text m)
        (join_kicks (kick lib s who reason at).0 addr h now)
      ∙ noted,
  join_session (kick lib s who reason at).0 addr h now,
)
  where
    tables :
        ((kick_client lib s c (reason_or default_kick reason) at).0.clients
          ≡ delete c.addr_key s.clients)
        × ((kick_client lib s c (reason_or default_kick reason) at).0.recently_kicked
            ≡ insert c.addr_key at s.recently_kicked)
    tables = kick_client_tables lib s c (reason_or default_kick reason) at

    noted : lookup addr.text (kick lib s who reason at).0.recently_kicked ≡ some at
    noted = rw (kick_found lib s who reason at c e) (
        ap (λ (m : List (Text × Time)). lookup addr.text m)
          (tables.1 ∙ ap (λ (x : Text). insert x at s.recently_kicked) k)
        ∙ lookup-insert_self s.recently_kicked addr.text at)
