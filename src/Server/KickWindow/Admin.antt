-- ===== src/Server/KickWindow/Admin.antt =====
-- Kick and Ban of internal/server/server.go keep a kicked address out.
use rbr_mp_server.Common.{◌≤◌, ◌≡◌, refl, ap, ◌∙◌, inl, inr, List, ◌++◌, Option-cases, some, arith}
use rbr_mp_server.Common.Text.{Text}
use rbr_mp_server.Common.GoMap.{lookup, insert, delete, IsMap, insert-IsMap}
use rbr_mp_server.Common.GoMap.Cases.{lookup-insert_self, lookup-delete_self}
use rbr_mp_server.Clock.{Time}
use rbr_mp_server.Server.Types.{Client, Server}
use rbr_mp_server.Server.Bans.{Json, Outcomes}
use rbr_mp_server.Server.Handle.{banned_prefix}
use rbr_mp_server.Server.Admin.{
  Library, find_client, kick_client, kick, ban_target, ban, reason_or, default_kick, default_ban,
  record_ban,
}
use rbr_mp_server.Server.Invariant.Console.{
  kick_found, kick_missing, ban_missing, ban_address, ban_player, banned,
}
use rbr_mp_server.Server.Absence.{delete-Absent}
use rbr_mp_server.Server.KickWindow.{Out, note-Out}

module _ (lib : Library) where
  pub kick_client_tables :
      (s : Server) (c : Client) (reason : Text) (now : Time)
      → ((kick_client lib s c reason now).0.clients ≡ delete c.addr_key s.clients)
        × ((kick_client lib s c reason now).0.recently_kicked
            ≡ insert c.addr_key now s.recently_kicked)
  unfolding kick_client
  kick_client_tables s c reason now = (refl, refl)

  kick_client-Out :
      (k : Text) (from : Time) (s : Server) (c : Client) (reason : Text) (now : Time)
      → Out k from s
      → from ≤ now
      → Out k from (kick_client lib s c reason now).0
  kick_client-Out k from s c reason now o later =
      let (ec, ek) = kick_client_tables s c reason now in
      note-Out k c.addr_key from now s (kick_client lib s c reason now).0 o later
        (ap (λ (m : List (Text × Client)). lookup k m) ec
          ∙ delete-Absent k c.addr_key s.clients o.absent)
        ek

  pub kick-Out :
      (k : Text) (from : Time) (s : Server) (who reason : Text) (now : Time)
      → Out k from s
      → from ≤ now
      → Out k from (kick lib s who reason now).0
  kick-Out k from s who reason now o later = elim (Option-cases (find_client lib s who)) [
    | inl e ↦ rw (kick_missing lib s who reason now e) o
    | inr (c, e) ↦
        rw (kick_found lib s who reason now c e)
          (kick_client-Out k from s c (reason_or default_kick reason) now o later)
  ]

  -- Kick puts out the client that it finds.
  pub kick-Out_self :
      (s : Server) (c : Client) (who reason : Text) (from : Time)
      → IsMap s.recently_kicked
      → find_client lib s who ≡ some c
      → Out c.addr_key from (kick lib s who reason from).0
  kick-Out_self s c who reason from m e =
      let (ec, ek) = kick_client_tables s c (reason_or default_kick reason) from in
      rw (kick_found lib s who reason from c e) (record {
        absent =
            ap (λ (m : List (Text × Client)). lookup c.addr_key m) ec
            ∙ lookup-delete_self s.clients c.addr_key;
        at = from;
        noted =
            ap (λ (m : List (Text × Time)). lookup c.addr_key m) ek
            ∙ lookup-insert_self s.recently_kicked c.addr_key from;
        since = omega arith;
        kicks = rw ek (insert-IsMap c.addr_key from s.recently_kicked m);
      })

  pub ban-Out :
      (k : Text) (from : Time) (j : Json) (f : Outcomes) (s : Server) (who reason : Text)
      (now later : Time)
      → Out k from s
      → from ≤ later
      → Out k from (ban lib j f s who reason now later).0
  ban-Out k from j f s who reason now later o le = elim (Option-cases (ban_target lib s who)) [
    | inl e ↦ rw (ban_missing lib j f s who reason now later e) o
    | inr (target, e) ↦ elim (Option-cases (find_client lib s who)) [
      | inl g ↦ rw (ban_address lib j f s who reason now later target e g).0 (recorded target)
      | inr (c, g) ↦ rw (ban_player lib j f s who reason now later target c e g).0 (
          kick-Out k from (banned lib j f s who reason now later target) who
            (banned_prefix ++ reason_or default_ban reason) later (recorded target) le)
    ]
  ]
    where
      recorded : (target : Text × Text) → Out k from (banned lib j f s who reason now later target)
      recorded target =
          unfold record_ban in
          record { absent = o.absent; at = o.at; noted = o.noted; since = o.since; kicks = o.kicks }
