-- ===== src/Server/Invariant/Console.antt =====
-- Kick, Ban and Unban of internal/server/server.go keep the invariant.
use rbr_mp_server.Common.{
  ◌≡◌, refl, true, false, none, some, [], ◌++◌, arith, Option-cases, Bool-cases, inl, inr,
}
use rbr_mp_server.Common.Text.{Text}
use rbr_mp_server.Clock.{Time}
use rbr_mp_server.Server.Types.{Client, Server}
use rbr_mp_server.Server.Bans.{Json, Outcomes, remove}
use rbr_mp_server.Server.Handle.{banned_prefix}
use rbr_mp_server.Server.Admin.{
  Library, find_client, kick_client, kick, ban_target, ban_entry, record_ban, ban, unban, reason_or,
  default_kick, default_ban,
}
use rbr_mp_server.Server.Sessions.{delete_old}
use rbr_mp_server.Server.Invariant.{Inv, Keeps}
use rbr_mp_server.Server.Invariant.Handlers.{Keeps-refl}
use rbr_mp_server.Server.Invariant.Datagram.{Inv-frame}

module _ (lib : Library) where
  pub kick_client-Keeps :
      (s : Server) (c : Client) (reason : Text) (now : Time)
      → Inv s
      → Keeps s (kick_client lib s c reason now).0
  unfolding kick_client
  kick_client-Keeps s c reason now v = record {
    inv = record {
      sessions = delete_old s.clients s.next_id v.sessions c.addr_key;
      positive = v.positive;
    };
    ids = omega arith;
  }

  pub kick_found :
      (s : Server) (who reason : Text) (now : Time) (c : Client)
      → find_client lib s who ≡ some c
      → kick lib s who reason now ≡ (
        (kick_client lib s c (reason_or default_kick reason) now).0,
        (kick_client lib s c (reason_or default_kick reason) now).1,
        true,
      )
  kick_found s who reason now c e = unfold kick in ground arith

  pub kick_missing :
      (s : Server) (who reason : Text) (now : Time)
      → find_client lib s who ≡ none
      → kick lib s who reason now ≡ (s, [], false)
  kick_missing s who reason now e = unfold kick in ground arith

  pub kick-Keeps :
      (s : Server) (who reason : Text) (now : Time) → Inv s → Keeps s (kick lib s who reason now).0
  kick-Keeps s who reason now v = elim (Option-cases (find_client lib s who)) [
    | inl e ↦ rw (kick_missing s who reason now e) (Keeps-refl s v)
    | inr (c, e) ↦
        rw (kick_found s who reason now c e)
          (kick_client-Keeps s c (reason_or default_kick reason) now v)
  ]

  module _ (j : Json) (f : Outcomes) (s : Server) (who reason : Text) (now later : Time) where
    -- The server once the ban of a target is recorded.
    abbrev pub banned : Text × Text → Server
    banned target =
        (record_ban lib j f s (ban_entry lib target (reason_or default_ban reason) now)).0

    pub ban_missing :
        ban_target lib s who ≡ none → ban lib j f s who reason now later ≡ (s, [], [], false)
    ban_missing e = unfold ban in ground arith

    pub ban_address :
        (target : Text × Text)
        → ban_target lib s who ≡ some target
        → find_client lib s who ≡ none
        → ((ban lib j f s who reason now later).0 ≡ banned target)
          × ((ban lib j f s who reason now later).1 ≡ [])
    ban_address target e g = unfold ban in (ground arith, ground arith)

    pub ban_player :
        (target : Text × Text) (c : Client)
        → ban_target lib s who ≡ some target
        → find_client lib s who ≡ some c
        → let r =
            kick lib (banned target) who (banned_prefix ++ reason_or default_ban reason) later in
          ((ban lib j f s who reason now later).0 ≡ r.0)
          × ((ban lib j f s who reason now later).1 ≡ r.1)
    ban_player target c e g = unfold ban in (ground arith, ground arith)

    pub record_ban_frame :
        (target : Text × Text)
        → ((banned target).clients ≡ s.clients) × ((banned target).next_id ≡ s.next_id)
    unfolding record_ban
    record_ban_frame target = (refl, refl)

    banned-Keeps : (target : Text × Text) → Inv s → Keeps s (banned target)
    banned-Keeps target v =
        let (ec, en) = record_ban_frame target in Inv-frame s (banned target) ec en v

    pub ban-Keeps : Inv s → Keeps s (ban lib j f s who reason now later).0
    ban-Keeps v = elim (Option-cases (ban_target lib s who)) [
      | inl e ↦ rw (ban_missing e) (Keeps-refl s v)
      | inr (target, e) ↦ elim (Option-cases (find_client lib s who)) [
        | inl g ↦ rw (ban_address target e g).0 (banned-Keeps target v)
        | inr (c, g) ↦
            let why = banned_prefix ++ reason_or default_ban reason in
            let b = banned-Keeps target v in
            let k = kick-Keeps (banned target) who why later b.inv in
            rw (ban_player target c e g).0
              (record { inv = k.inv; ids = omega (arith, k.ids, (record_ban_frame target).1) })
      ]
    ]

pub unban_frame :
    (j : Json) (f : Outcomes) (s : Server) (ip : Text)
    → ((unban j f s ip).0.clients ≡ s.clients)
      × ((unban j f s ip).0.next_id ≡ s.next_id)
      × ((unban j f s ip).0.recently_kicked ≡ s.recently_kicked)
unfolding unban
unban_frame j f s ip = elim (Bool-cases (remove s.bans ip).1) [
  | inl e ↦ rw e (refl, refl, refl)
  | inr e ↦ rw e (refl, refl, refl)
]

pub unban-Keeps :
    (j : Json) (f : Outcomes) (s : Server) (ip : Text) → Inv s → Keeps s (unban j f s ip).0
unban-Keeps j f s ip v =
    let (ec, en, _) = unban_frame j f s ip in Inv-frame s (unban j f s ip).0 ec en v
