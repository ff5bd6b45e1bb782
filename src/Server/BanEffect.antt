-- ===== src/Server/BanEffect.antt =====
-- What Ban of internal/server/server.go brings about, and what a banned address can still do.
use rbr_mp_server.Common.{
  ℕ, ◌+◌, ◌*◌, ◌<◌, ◌≡◌, ap, ◌∙◌, true, false, List, [], ◌∷◌, ◌++◌, none, some, arith,
}
use rbr_mp_server.Common.Text.{Text, text_eq_refl}
use rbr_mp_server.Common.GoMap.{lookup, insert}
use rbr_mp_server.Common.GoMap.Cases.{lookup-delete_self, lookup-insert_self}
use rbr_mp_server.Clock.{Time, second, at_least, at_least-le}
use rbr_mp_server.Protocol.Encode.{encode_kick}
use rbr_mp_server.Server.Types.{UdpAddr, Client, BanEntry, Server, Outgoing, ban_notice_every}
use rbr_mp_server.Server.Bans.{get, Json, Outcomes}
use rbr_mp_server.Server.Bans.Laws.{get-add}
use rbr_mp_server.Server.Handle.{time_of, refuse, handle, banned_prefix}
use rbr_mp_server.Server.Admin.{
  Library, find_client, kick_client, ban_target, ban_entry, record_ban, ban, reason_or,
  default_kick, default_ban, banned_by_rcon,
}
use rbr_mp_server.Server.Invariant.Datagram.{handle_banned}
use rbr_mp_server.Server.Invariant.Console.{kick_found, banned, ban_player}
use rbr_mp_server.Server.KickWindow.Admin.{kick_client_tables}

abbrev pub notice : UdpAddr → BanEntry → Outgoing
notice addr ban = record {
  addr = addr;
  bytes = encode_kick (record { reason = banned_prefix ++ ban.reason });
}

refuse_noted :
    (s : Server) (addr : UdpAddr) (ban : BanEntry) (now : Time)
    → at_least now (time_of addr.text s.last_ban_notice) ban_notice_every ≡ true
    → refuse s addr ban now ≡ (
      record s { last_ban_notice = insert addr.text now s.last_ban_notice },
      notice addr ban ∷ [],
    )
refuse_noted s addr ban now h = unfold refuse in rw h

refuse_silent :
    (s : Server) (addr : UdpAddr) (ban : BanEntry) (now : Time)
    → at_least now (time_of addr.text s.last_ban_notice) ban_notice_every ≡ false
    → refuse s addr ban now ≡ (s, [])
refuse_silent s addr ban now h = unfold refuse in rw h

time_of_noted : (k : Text) (now : Time) (m : List (Text × Time)) → time_of k (insert k now m) ≡ now
unfolding time_of
time_of_noted k now m = rw (lookup-insert_self m k now, time_of)

-- Whatever a banned address sends, well formed or not, no session, id, ban or kick changes: if its
-- last notice is five seconds old it is told once more and only the time of the notice is noted,
-- and what it sends in the next five seconds changes nothing and is not answered.
pub banned_refused :
    (s : Server) (b b' : List ℕ) (addr : UdpAddr) (now later : Time) (ban : BanEntry)
    → get s.bans addr.ip ≡ some ban
    → at_least now (time_of addr.text s.last_ban_notice) ban_notice_every ≡ true
    → later < now + 5 * second
    → let r = handle s b addr now in
      (r ≡ (
        record s { last_ban_notice = insert addr.text now s.last_ban_notice },
        notice addr ban ∷ [],
      ))
      × (handle r.0 b' addr later ≡ (r.0, []))
banned_refused s b b' addr now later ban e due soon =
    (first, rw first (handle_banned t b' addr later ban e ∙ refuse_silent t addr ban later quiet))
  where
    t : Server
    t = record s { last_ban_notice = insert addr.text now s.last_ban_notice }

    first : handle s b addr now ≡ (t, notice addr ban ∷ [])
    first = handle_banned s b addr now ban e ∙ refuse_noted s addr ban now due

    quiet : at_least later (time_of addr.text t.last_ban_notice) ban_notice_every ≡ false
    quiet =
        ap (λ (x : Time). at_least later x ban_notice_every)
          (time_of_noted addr.text now s.last_ban_notice)
        ∙ at_least-le later now (5 * second) (omega arith) (omega arith)
        ∙ ground arith

module _ (lib : Library) (j : Json) (f : Outcomes) (s : Server) (who reason : Text)
    (now later : Time) where
  target_of :
      (c : Client)
      → find_client lib s who ≡ some c
      → ban_target lib s who ≡ some (c.addr.ip, c.name)
  target_of c e = unfold ban_target in ground arith

  -- Recording the ban does not change whom the text names.
  still_found :
      (c : Client)
      → find_client lib s who ≡ some c
      → find_client lib (banned lib j f s who reason now later (c.addr.ip, c.name)) who ≡ some c
  still_found c e = unfold record_ban in unfold find_client in e

  -- Banning a connected player, whatever the file system answers: its IP is banned under the given
  -- reason from `now` on, its session is gone, and its address is noted as kicked at `later`.
  pub ban_player_effect :
      (c : Client)
      → find_client lib s who ≡ some c
      → let r = ban lib j f s who reason now later in
        let why = reason_or default_ban reason in
        (get r.0.bans c.addr.ip
          ≡ some (record {
            ip = c.addr.ip;
            name = c.name;
            reason = why;
            banned_at = now;
            banned_by = banned_by_rcon;
          }))
        × (lookup c.addr_key r.0.clients ≡ none)
        × (lookup c.addr_key r.0.recently_kicked ≡ some later)
  ban_player_effect c e =
      rw
        (
          (ban_player lib j f s who reason now later target c (target_of c e) e).0,
          kick_found lib b who (banned_prefix ++ why) later c (still_found c e),
        )
        (
          kept,
          ap (λ (m : List (Text × Client)). lookup c.addr_key m)
                (kick_client_tables lib b c kick_reason later).0
              ∙ lookup-delete_self b.clients c.addr_key,
          ap (λ (m : List (Text × Time)). lookup c.addr_key m)
                (kick_client_tables lib b c kick_reason later).1
              ∙ lookup-insert_self b.recently_kicked c.addr_key later,
        )
    where
      why : Text
      why = reason_or default_ban reason

      target : Text × Text
      target = (c.addr.ip, c.name)

      b : Server
      b = banned lib j f s who reason now later target

      kick_reason : Text
      kick_reason = reason_or default_kick (banned_prefix ++ why)

      kept :
          get (kick_client lib b c kick_reason later).0.bans c.addr.ip
          ≡ some (record {
            ip = c.addr.ip;
            name = c.name;
            reason = why;
            banned_at = now;
            banned_by = banned_by_rcon;
          })
      kept =
          unfold kick_client record_ban ban_entry in
          get-add s.bans _ c.addr.ip ∙ rw (text_eq_refl c.addr.ip)
