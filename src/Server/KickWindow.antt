-- ===== src/Server/KickWindow.antt =====
-- Kick of internal/server/server.go against the client's automatic re-register: for the kick window
-- nothing that arrives, ticks or is typed brings the session back.
pub mod Admin
pub mod History
use rbr_mp_server.Common.{
  ℕ, zero, suc, ◌+◌, ◌*◌, ◌%◌, ◌^◌, ◌≤◌, ◌<◌, ◌≡◌, refl, sym, ap, subst, ◌∙◌, ◌≢◌, ◌⊎◌, inl, inr,
  Bool, true, false, not, Option, none, some, List, [], ◌∷◌, ◌++◌, arith, Option-cases, Bool-cases,
  if◌then◌else◌, length,
}
use rbr_mp_server.Common.Text.{Text, text_eq, text_eq_iff}
use rbr_mp_server.Common.GoMap.{
  lookup, insert, delete, keep, IsMap, lookup-keep, insert-IsMap, keep-IsMap,
}
use rbr_mp_server.Common.GoMap.Cases.{
  lookup-insert_ne, lookup-insert_self, lookup-delete_self, insert_cases,
}
use rbr_mp_server.Clock.{Time, second, within, at_least, within-lt, at_least-le}
use rbr_mp_server.Protocol.Types.{Hello, State, Chat}
use rbr_mp_server.Protocol.Types
use rbr_mp_server.Server.Types.{UdpAddr, Client, BanEntry, Server, Outgoing, kick_window}
use rbr_mp_server.Server.Bans.{Json, Outcomes}
use rbr_mp_server.Server.Session.{client_locked, store, join, state, pong, bye}
use rbr_mp_server.Server.Chat.{chat}
use rbr_mp_server.Server.Handle.{
  kicked_recently, refuse, dispatch, handle, Network, send_all, receive, banned_prefix,
}
use rbr_mp_server.Server.Tick.{reap, tick}
use rbr_mp_server.Server.Admin.{
  Library, find_client, kick_client, kick, ban_target, ban, unban, reason_or, default_kick,
  default_ban, record_ban,
}
use rbr_mp_server.Server.Invariant.{Inv, Keeps, HasIds}
use rbr_mp_server.Server.Invariant.Datagram.{
  dispatch_cases, handle_cases, refuse_frame, send_all_frame,
}
use rbr_mp_server.Server.Invariant.Console.{
  kick_found, kick_missing, ban_missing, ban_address, ban_player, banned, unban_frame,
}
use rbr_mp_server.Server.Absence.{
  Absent, delete-Absent, join-Absent, state-Absent, pong-Absent, bye-Absent, chat-Absent,
  tick-Absent,
}

-- The key has no session, and was kicked at `from` or later.
pub record Out (k : Text) (from : Time) (s : Server) : Type 0 where
  pub absent : Absent k s
  pub at : Time
  pub noted : lookup k s.recently_kicked ≡ some at
  pub since : from ≤ at
  pub kicks : IsMap s.recently_kicked

-- Less than the kick window after `from`.
abbrev pub Soon : Time → Time → Type 0
Soon from now = now < from + 10 * second

kicked_recently-Out :
    (k : Text) (from : Time) (s : Server) (addr : UdpAddr) (now : Time)
    → Out k from s
    → Soon from now
    → addr.text ≡ k
    → kicked_recently s addr now ≡ true
unfolding kicked_recently
kicked_recently-Out k from s addr now o soon e =
    let l : lookup addr.text s.recently_kicked ≡ some o.at =
      ap (λ (x : Text). lookup x s.recently_kicked) e ∙ o.noted in
    rw (l, kicked_recently)
      (within-lt now o.at (10 * second) (omega arith) (omega arith) ∙ ground (arith, o.since))

-- The session part of the handlers leaves the table of kicks alone.
pub join_kicks :
    (s : Server) (addr : UdpAddr) (h : Hello) (now : Time)
    → (join s addr h now).0.recently_kicked ≡ s.recently_kicked
unfolding join store client_locked
join_kicks s addr h now = ground arith

pub state_kicks :
    (s : Server) (addr : UdpAddr) (st : State) (now : Time)
    → (state s addr st now).0.recently_kicked ≡ s.recently_kicked
unfolding state store client_locked
state_kicks s addr st now = ground arith

pub pong_kicks :
    (s : Server) (addr : UdpAddr) (p : Types.Pong) (now : Time)
    → (pong s addr p now).recently_kicked ≡ s.recently_kicked
unfolding pong store
pong_kicks s addr p now = ground arith

pub bye_kicks : (s : Server) (addr : UdpAddr) → (bye s addr).recently_kicked ≡ s.recently_kicked
unfolding bye
bye_kicks s addr = ground arith

pub chat_kicks :
    (s : Server) (addr : UdpAddr) (ch : Chat) (now : Time)
    → (chat s addr ch now).0.recently_kicked ≡ s.recently_kicked
unfolding chat store
chat_kicks s addr ch now = ground arith

-- Stay out where the session stays absent and the kicks are the same.
pub same_kicks :
    (k : Text) (from : Time) (s t : Server)
    → Out k from s
    → Absent k t
    → t.recently_kicked ≡ s.recently_kicked
    → Out k from t
same_kicks k from s t o absent e = record {
  absent = absent;
  at = o.at;
  noted = ap (lookup k) e ∙ o.noted;
  since = o.since;
  kicks = subst IsMap (sym e) o.kicks;
}

-- A handler that is not reached from the kicked address leaves it out.
pub differs :
    (k : Text) (addr : UdpAddr) (s : Server) (now from : Time)
    → Out k from s
    → Soon from now
    → kicked_recently s addr now ≡ false
    → addr.text ≢ k
differs k addr s now from o soon f e = cc (f, kicked_recently-Out k from s addr now o soon e)

pub handle-Out :
    (k : Text) (from : Time) (s : Server) (b : List ℕ) (addr : UdpAddr) (now : Time)
    → Out k from s
    → Soon from now
    → Out k from (handle s b addr now).0
handle-Out k from s b addr now o soon =
    handle_cases (λ r. Out k from r.0) s b addr now
      (λ ban _.
        let (ec, _, _, ek) = refuse_frame s addr ban now in
        same_kicks k from s (refuse s addr ban now).0 o
          (ap (λ (m : List (Text × Client)). lookup k m) ec ∙ o.absent) ek)
      (λ _. o)
      (λ t _ _.
        dispatch_cases (λ r. Out k from r.0) s b addr now t o
          (λ h _ f _.
            same_kicks k from s (join s addr h now).0 o
              (join-Absent k s addr h now (differs k addr s now from o soon f) o.absent)
              (join_kicks s addr h now))
          (λ st _ f _.
            same_kicks k from s (state s addr st now).0 o
              (state-Absent k s addr st now (differs k addr s now from o soon f) o.absent)
              (state_kicks s addr st now))
          (λ p _ _.
            same_kicks k from s (pong s addr p now) o (pong-Absent k s addr p now o.absent)
              (pong_kicks s addr p now))
          (λ ch _ _.
            same_kicks k from s (chat s addr ch now).0 o (chat-Absent k s addr ch now o.absent)
              (chat_kicks s addr ch now))
          (λ _.
            same_kicks k from s (bye s addr) o (bye-Absent k s addr o.absent) (bye_kicks s addr)))

tick_kicks :
    (s : Server) (now : Time)
    → (tick s now).0.recently_kicked
      ≡ keep (λ at. not (at_least now at kick_window)) s.recently_kicked
unfolding tick reap
tick_kicks s now = refl

pub tick-Out :
    (k : Text) (from : Time) (s : Server) (now : Time)
    → Inv s
    → Out k from s
    → Soon from now
    → Out k from (tick s now).0
tick-Out k from s now v o soon = record {
  absent = tick-Absent k s now v o.absent;
  at = o.at;
  noted =
      rw
        (
          tick_kicks s now,
          lookup-keep (λ at. not (at_least now at kick_window)) k s.recently_kicked o.kicks,
          o.noted,
        )
        (ground (arith, young));
  since = o.since;
  kicks =
      subst IsMap (sym (tick_kicks s now))
        (keep-IsMap (λ at. not (at_least now at kick_window)) s.recently_kicked o.kicks);
}
  where
    young : at_least now o.at kick_window ≡ false
    young = at_least-le now o.at (10 * second) (omega arith) (omega arith) ∙ ground (arith, o.since)

-- Another kick: of this address again, with a later time, or of another one.
pub note-Out :
    (k j : Text) (from now : Time) (s t : Server)
    → Out k from s
    → from ≤ now
    → Absent k t
    → t.recently_kicked ≡ insert j now s.recently_kicked
    → Out k from t
note-Out k j from now s t o later absent e = elim (Bool-cases (text_eq j k)) [
  | inl same ↦ record {
    absent = absent;
    at = now;
    noted =
        ap (lookup k) e
        ∙ ap (λ (x : Text). lookup k (insert x now s.recently_kicked)) ((text_eq_iff j k).0 same)
        ∙ lookup-insert_self s.recently_kicked k now;
    since = later;
    kicks = subst IsMap (sym e) (insert-IsMap j now s.recently_kicked o.kicks);
  }
  | inr other ↦ record {
    absent = absent;
    at = o.at;
    noted =
        ap (lookup k) e
        ∙ lookup-insert_ne s.recently_kicked j k now (λ p. cc (other, (text_eq_iff j k).1 p))
        ∙ o.noted;
    since = o.since;
    kicks = subst IsMap (sym e) (insert-IsMap j now s.recently_kicked o.kicks);
  }
]
