-- ===== src/Server/Interleave/KickWindow.antt =====
-- Kick of internal/server/server.go against every interleaving of the goroutines.
use rbr_mp_server.Common.{◌+◌, ◌^◌, ◌≤◌, ◌<◌, ◌≡◌, ◌≢◌, refl, none, some, List, arith, length, All}
use rbr_mp_server.Common.Text.{Text}
use rbr_mp_server.Common.GoMap.{lookup, IsMap}
use rbr_mp_server.Clock.{Time}
use rbr_mp_server.Server.Types.{Client, Server}
use rbr_mp_server.Server.Bans.{Json}
use rbr_mp_server.Server.Session.{join, state, pong, bye}
use rbr_mp_server.Server.Chat.{chat}
use rbr_mp_server.Server.Handle.{Network, refuse}
use rbr_mp_server.Server.Admin.{Library, find_client, kick}
use rbr_mp_server.Server.Invariant.{Inv}
use rbr_mp_server.Server.Invariant.Datagram.{refuse_frame}
use rbr_mp_server.Server.Invariant.Console.{unban_frame, kick-Keeps}
use rbr_mp_server.Server.Absence.{join-Absent, state-Absent, pong-Absent, bye-Absent, chat-Absent}
use rbr_mp_server.Server.KickWindow.{
  Out, Soon, same_kicks, differs, tick-Out, join_kicks, state_kicks, pong_kicks, bye_kicks,
  chat_kicks,
}
use rbr_mp_server.Server.KickWindow.Admin.{kick-Out, kick-Out_self}
use rbr_mp_server.Server.KickWindow.History.{same_tables}
use rbr_mp_server.Server.Interleave.{
  Pc, waiting, received, permitted, joining, stating, System, system, advance, count_rx, Action,
  arrives, advances, ticks, kicks, bans, unbans, sends, Step, arrive, go_on, on_tick, on_kick,
  on_ban, on_unban, on_send, Run, begin, continue,
}
use rbr_mp_server.Server.Interleave.Sections.{advance_cases}
use rbr_mp_server.Server.Interleave.Tables.{send_frame, record_ban_frame, Run-Keeps}

-- What the receive goroutine has in hand cannot bring the address `k` back: a datagram whose clock
-- was read before the end of the kick window, or a checked message of another address.
abbrev pub Harmless : Text → Time → Pc → Type 0
Harmless k from waiting = Unit {0}
Harmless k from (received b addr now) = Soon from now
Harmless k from (permitted b addr now) = Soon from now
Harmless k from (joining addr h now) = addr.text ≢ k
Harmless k from (stating addr st now) = addr.text ≢ k

-- The action happens within the kick window that opened at `from`.
abbrev pub Within : Time → Action → Type 0
Within from (arrives b addr now) = Soon from now
Within from advances = Unit {0}
Within from (ticks now) = Soon from now
Within from (kicks who reason now) = from ≤ now
Within from (bans f e) = Unit {0}
Within from (unbans f ip) = Unit {0}
Within from (sends o) = Unit {0}

-- The address is out, and the receive goroutine cannot change that.
pub record Barred (k : Text) (from : Time) (x : System) : Type 0 where
  pub out : Out k from x.server
  pub harmless : Harmless k from x.pc

module _ (k : Text) (from : Time) where
  advance-Barred :
      (s : Server) (pc : Pc) → Out k from s → Harmless k from pc → Barred k from (advance s pc)
  advance-Barred s pc o h =
      advance_cases (Barred k from) s pc (record { out = o; harmless = tt })
        (λ b addr now ban e.
          let (ec, _, _, ek) = refuse_frame s addr ban now in
          record { out = same_tables k from s (refuse s addr ban now).0 ec ek o; harmless = tt })
        (λ b addr now e. record { out = o; harmless = rw e at h })
        (λ b addr now m e f. record {
          out = o;
          harmless = differs k addr s now from o (rw e at h) f;
        })
        (λ b addr now m e f. record {
          out = o;
          harmless = differs k addr s now from o (rw e at h) f;
        })
        (λ b addr now p. record {
          out =
              same_kicks k from s (pong s addr p now) o (pong-Absent k s addr p now o.absent)
                (pong_kicks s addr p now);
          harmless = tt;
        })
        (λ b addr now ch. record {
          out =
              same_kicks k from s (chat s addr ch now).0 o (chat-Absent k s addr ch now o.absent)
                (chat_kicks s addr ch now);
          harmless = tt;
        })
        (λ addr. record {
          out =
              same_kicks k from s (bye s addr) o (bye-Absent k s addr o.absent) (bye_kicks s addr);
          harmless = tt;
        })
        (λ addr m now e. record {
          out =
              same_kicks k from s (join s addr m now).0 o
                (join-Absent k s addr m now (rw e at h) o.absent) (join_kicks s addr m now);
          harmless = tt;
        })
        (λ addr m now e. record {
          out =
              same_kicks k from s (state s addr m now).0 o
                (state-Absent k s addr m now (rw e at h) o.absent) (state_kicks s addr m now);
          harmless = tt;
        })

  same_frame :
      (s t : Server)
      → (t.clients ≡ s.clients) × (t.next_id ≡ s.next_id) × (t.recently_kicked ≡ s.recently_kicked)
      → Out k from s
      → Out k from t
  same_frame s t (ec, _, ek) o = same_tables k from s t ec ek o

module _ (lib : Library) (j : Json) (net : Network) (k : Text) (from : Time) where
  Step-Barred :
      {a : Action} {x y : System}
      → Step lib j net a x y
      → Inv x.server
      → Within from a
      → Barred k from x
      → Barred k from y
  Step-Barred (arrive s b addr now) v w o = record {
    out =
        same_tables k from s (count_rx s b) (unfold count_rx in refl) (unfold count_rx in refl)
          o.out;
    harmless = w;
  }
  Step-Barred (go_on s pc) v w o = advance-Barred k from s pc o.out o.harmless
  Step-Barred (on_tick s pc now) v w o = record {
    out = tick-Out k from s now v o.out w;
    harmless = o.harmless;
  }
  Step-Barred (on_kick s pc who reason now) v w o = record {
    out = kick-Out lib k from s who reason now o.out w;
    harmless = o.harmless;
  }
  Step-Barred (on_ban s pc f e) v w o = record {
    out = same_frame k from s _ (record_ban_frame lib j net f s e) o.out;
    harmless = o.harmless;
  }
  Step-Barred (on_unban s pc f ip) v w o = record {
    out = same_frame k from s _ (unban_frame j f s ip) o.out;
    harmless = o.harmless;
  }
  Step-Barred (on_send s pc m) v w o = record {
    out = same_frame k from s _ (send_frame net s m) o.out;
    harmless = o.harmless;
  }

  Run-Barred :
      {x y : System} {trace : List Action}
      → Run lib j net x trace y
      → x.server.next_id + length trace < 2 ^ 32
      → Inv x.server
      → All (Within from) trace
      → Barred k from x
      → Barred k from y
  Run-Barred begin few v w o = o
  Run-Barred (continue a r step) few v w o =
      Step-Barred step (Run-Keeps lib j net r (omega arith) v).0 w.0
        (Run-Barred r (omega arith) v w.1 o)

-- The kick window with all goroutines running. On a well-formed server, with each address once in
-- the table of kicks, Kick finds the client `c` at the time `from`, while the receive goroutine has
-- no checked Hello or State of that address in hand, and any other datagram in hand was received
-- less than ten seconds after `from`. Then no interleaving of critical sections, in which the
-- datagrams and the ticks that follow come less than ten seconds after `from`, and the kicks that
-- follow not before it, puts a session back under the address. (As many ids as there are sections
-- must be left.)
pub interleaved_kick_window :
    (lib : Library) (j : Json) (net : Network) (s : Server) (pc : Pc) (c : Client)
    (who reason : Text) (from : Time) (trace : List Action) (y : System)
    → Inv s
    → IsMap s.recently_kicked
    → find_client lib s who ≡ some c
    → Harmless c.addr_key from pc
    → s.next_id + 1 + length trace < 2 ^ 32
    → All (Within from) trace
    → Run lib j net (system (kick lib s who reason from).0 pc) trace y
    → lookup c.addr_key y.server.clients ≡ none
interleaved_kick_window lib j net s pc c who reason from trace y v m e h few w r =
    let kept = kick-Keeps lib s who reason from v in
    (Run-Barred lib j net c.addr_key from r (omega (arith, few, kept.ids)) kept.inv w
      (record { out = kick-Out_self lib s c who reason from m e; harmless = h })).out.absent
