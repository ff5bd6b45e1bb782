-- ===== src/Server/Isolation/Settings.antt =====
-- Nothing in internal/server/server.go changes the configuration of a server, and nothing but the
-- receive loop of Run the counters of what came in.
use rbr_mp_server.Common.{
  ℕ, ◌≡◌, refl, ◌∙◌, inl, inr, List, [], ◌∷◌, ◌++◌, arith, Option-cases, Bool-cases,
}
use rbr_mp_server.Common.Text.{Text}
use rbr_mp_server.Clock.{Time}
use rbr_mp_server.Protocol.Types.{Hello, State, Chat}
use rbr_mp_server.Protocol.Types
use rbr_mp_server.Server.Types.{UdpAddr, BanEntry, Server, Outgoing}
use rbr_mp_server.Server.Bans.{Json, Outcomes, remove}
use rbr_mp_server.Server.Session.{client_locked, store, join, state, pong, bye}
use rbr_mp_server.Server.Chat.{chat}
use rbr_mp_server.Server.Handle.{Network, refuse, send, send_all, handle, receive, banned_prefix}
use rbr_mp_server.Server.Tick.{reap, tick}
use rbr_mp_server.Server.Admin.{
  Library, find_client, kick_client, kick, ban_target, record_ban, ban, unban, reason_or,
  default_ban,
}
use rbr_mp_server.Server.Run.{Event, datagram, ticks, kicks, bans, unbans, says, step, run}
use rbr_mp_server.Server.Invariant.Datagram.{handle_cases, dispatch_cases}
use rbr_mp_server.Server.Invariant.Console.{ban_missing, ban_address, ban_player, banned}
use rbr_mp_server.Server.Interleave.{count_rx}

-- The configuration and the counters of what came in are as before.
pub record Kept (s t : Server) : Type 0 where
  pub cfg : t.cfg ≡ s.cfg
  pub rx_count : t.rx_count ≡ s.rx_count
  pub rx_bytes : t.rx_bytes ≡ s.rx_bytes

Kept-refl : (s : Server) → Kept s s
Kept-refl s = record { cfg = refl; rx_count = refl; rx_bytes = refl }

Kept-trans : (s t u : Server) → Kept s t → Kept t u → Kept s u
Kept-trans s t u a b = record {
  cfg = b.cfg ∙ a.cfg;
  rx_count = b.rx_count ∙ a.rx_count;
  rx_bytes = b.rx_bytes ∙ a.rx_bytes;
}

join-Kept : (s : Server) (addr : UdpAddr) (h : Hello) (now : Time) → Kept s ((join s addr h now).0)
unfolding join store client_locked
join-Kept s addr h now = record {
  cfg = ground arith;
  rx_count = ground arith;
  rx_bytes = ground arith;
}

state-Kept :
    (s : Server) (addr : UdpAddr) (st : State) (now : Time) → Kept s ((state s addr st now).0)
unfolding state store client_locked
state-Kept s addr st now = record {
  cfg = ground arith;
  rx_count = ground arith;
  rx_bytes = ground arith;
}

pong-Kept : (s : Server) (addr : UdpAddr) (p : Types.Pong) (now : Time) → Kept s (pong s addr p now)
unfolding pong store
pong-Kept s addr p now = record {
  cfg = ground arith;
  rx_count = ground arith;
  rx_bytes = ground arith;
}

chat-Kept : (s : Server) (addr : UdpAddr) (ch : Chat) (now : Time) → Kept s ((chat s addr ch now).0)
unfolding chat store
chat-Kept s addr ch now = record {
  cfg = ground arith;
  rx_count = ground arith;
  rx_bytes = ground arith;
}

bye-Kept : (s : Server) (addr : UdpAddr) → Kept s (bye s addr)
unfolding bye
bye-Kept s addr = record { cfg = ground arith; rx_count = ground arith; rx_bytes = ground arith }

refuse-Kept :
    (s : Server) (addr : UdpAddr) (ban : BanEntry) (now : Time) → Kept s ((refuse s addr ban now).0)
unfolding refuse
refuse-Kept s addr ban now = record {
  cfg = ground arith;
  rx_count = ground arith;
  rx_bytes = ground arith;
}

send-Kept : (net : Network) (s : Server) (o : Outgoing) → Kept s (send net s o)
unfolding send
send-Kept net s o = record { cfg = ground arith; rx_count = ground arith; rx_bytes = ground arith }

handle-Kept :
    (s : Server) (b : List ℕ) (addr : UdpAddr) (now : Time) → Kept s (handle s b addr now).0
handle-Kept s b addr now =
    handle_cases (λ r. Kept s r.0) s b addr now (λ ban _. refuse-Kept s addr ban now)
      (λ _. Kept-refl s)
      (λ t _ _.
        dispatch_cases (λ r. Kept s r.0) s b addr now t (Kept-refl s)
          (λ h _ _ _. join-Kept s addr h now) (λ st _ _ _. state-Kept s addr st now)
          (λ p _ _. pong-Kept s addr p now) (λ ch _ _. chat-Kept s addr ch now)
          (λ _. bye-Kept s addr))

-- Sending after a handler.
sent-Kept :
    (net : Network) (s t : Server) (out : List Outgoing) → Kept s t → Kept s (send_all net t out)
unfolding send_all
sent-Kept net s t [] k = k
sent-Kept net s t (o ∷ os) k =
    sent-Kept net s (send net t o) os (Kept-trans s t (send net t o) k (send-Kept net t o))

tick-Kept : (s : Server) (now : Time) → Kept s (tick s now).0
unfolding tick reap
tick-Kept s now = record { cfg = refl; rx_count = refl; rx_bytes = refl }

-- Where an event leaves those: a datagram is counted before it is handled.
unfoldable pub counted : Server → Event → Server
counted s (datagram b addr now) = count_rx s b
counted s (ticks now) = s
counted s (kicks who reason now) = s
counted s (bans f who reason now later) = s
counted s (unbans f ip) = s
counted s (says text) = s

module _ (lib : Library) (j : Json) (net : Network) where
  kick-Kept : (s : Server) (who reason : Text) (now : Time) → Kept s (kick lib s who reason now).0
  unfolding kick kick_client
  kick-Kept s who reason now = record {
    cfg = ground (arith, Option-cases (find_client lib s who));
    rx_count = ground (arith, Option-cases (find_client lib s who));
    rx_bytes = ground (arith, Option-cases (find_client lib s who));
  }

  ban-Kept :
      (f : Outcomes) (s : Server) (who reason : Text) (now later : Time)
      → Kept s (ban lib j f s who reason now later).0
  ban-Kept f s who reason now later = elim (Option-cases (ban_target lib s who)) [
    | inl e ↦ rw (ban_missing lib j f s who reason now later e) (Kept-refl s)
    | inr (target, e) ↦
        let t = banned lib j f s who reason now later target in
        let same : Kept s t =
          unfold record_ban in record { cfg = refl; rx_count = refl; rx_bytes = refl } in
        let why = banned_prefix ++ reason_or default_ban reason in
        elim (Option-cases (find_client lib s who)) [
          | inl g ↦ rw (ban_address lib j f s who reason now later target e g).0 same
          | inr (c, g) ↦
              rw (ban_player lib j f s who reason now later target c e g).0
                (Kept-trans s t (kick lib t who why later).0 same (kick-Kept t who why later))
        ]
  ]

  unban-Kept : (f : Outcomes) (s : Server) (ip : Text) → Kept s (unban j f s ip).0
  unfolding unban
  unban-Kept f s ip = record {
    cfg = ground (arith, Bool-cases (remove s.bans ip).1);
    rx_count = ground (arith, Bool-cases (remove s.bans ip).1);
    rx_bytes = ground (arith, Bool-cases (remove s.bans ip).1);
  }

  pub step-Kept : (s : Server) (e : Event) → Kept (counted s e) (step lib j net s e)
  unfolding step counted
  step-Kept s (datagram b addr now) =
      unfold receive count_rx in
      let s1 = count_rx s b in
      sent-Kept net s1 (handle s1 b addr now).0 (handle s1 b addr now).1 (handle-Kept s1 b addr now)
  step-Kept s (ticks now) = sent-Kept net s _ (tick s now).1 (tick-Kept s now)
  step-Kept s (kicks who reason now) = sent-Kept net s _ _ (kick-Kept s who reason now)
  step-Kept s (bans f who reason now later) =
      sent-Kept net s _ _ (ban-Kept f s who reason now later)
  step-Kept s (unbans f ip) = unban-Kept f s ip
  step-Kept s (says text) = sent-Kept net s s _ (Kept-refl s)

  counted_cfg : (s : Server) (e : Event) → (counted s e).cfg ≡ s.cfg
  unfolding counted count_rx
  counted_cfg s (datagram b addr now) = refl
  counted_cfg s (ticks now) = refl
  counted_cfg s (kicks who reason now) = refl
  counted_cfg s (bans f who reason now later) = refl
  counted_cfg s (unbans f ip) = refl
  counted_cfg s (says text) = refl

  pub run_cfg : (s : Server) (es : List Event) → (run lib j net s es).cfg ≡ s.cfg
  unfolding run
  run_cfg s [] = refl
  run_cfg s (e ∷ es) = run_cfg (step lib j net s e) es ∙ (step-Kept s e).cfg ∙ counted_cfg s e
