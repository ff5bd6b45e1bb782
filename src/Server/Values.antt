-- ===== src/Server/Values.antt =====
-- The numbers that internal/server/server.go takes from the State datagrams it relays: every session keeps
-- them in the ranges of their Go types.
pub mod Handlers
pub mod Run
use rbr_mp_server.Common.{
  ◌+◌, ◌%◌, ◌^◌, ◌≡◌, refl, sym, ap, subst, ◌∙◌, inl, inr, Option, none, some, List, [], ◌∷◌, ◌++◌,
  ℕ, zero, suc, drop, ltb, if◌then◌else◌, arith, All, All-append, Option-cases, Bool-cases, ◌==◌,
  ◌||◌, not,
}
use rbr_mp_server.Common.Text.{Text}
use rbr_mp_server.Common.GoMap.{lookup, delete, keep}
use rbr_mp_server.Common.GoMap.Cases.{insert_cases, delete_cases, keep_cases, update_all_cases}
use rbr_mp_server.Clock.{Time, within, is_zero}
use rbr_mp_server.History.Sample.{Sample}
use rbr_mp_server.History.Ring.{History, new_history, last, dropped, push, add, latest}
use rbr_mp_server.Protocol.Types.{
  Error, Hello, State, Chat, IsU32, IsTransform, IsTelemetry, IsState,
}
use rbr_mp_server.Protocol.Types
use rbr_mp_server.Protocol.Header.{IsByte}
use rbr_mp_server.Server.Types.{UdpAddr, Client, Server, history_age, chat_every}
use rbr_mp_server.Server.Session.{
  new_client, default_name, client_locked, store, sample_of, accept, take_state, rename, join,
  state, pong, bye, uptime_ms,
}
use rbr_mp_server.Server.Chat.{relay, chat}
use rbr_mp_server.Server.Handle.{handle}
use rbr_mp_server.Server.Tick.{tick}
use rbr_mp_server.Server.Invariant.{Inv}
use rbr_mp_server.Server.Invariant.Handlers.{
  take_state_cases, rename_frame, pong_unknown, pong_known, bye_unknown, bye_known,
}
use rbr_mp_server.Server.Invariant.ChatLine.{chat_text_unknown, chat_text_known, chat_cases}
use rbr_mp_server.Server.Invariant.Datagram.{handle_cases, dispatch_cases, refuse_frame}
use rbr_mp_server.Server.Invariant.Timers.{after_ping, after_ping_values, alive, tick-clients}

pub record IsSample (x : Sample) : Type 0 where
  pub client_time_ms : IsU32 x.client_time_ms
  pub transform : IsTransform x.transform
  pub telemetry : IsTelemetry x.telemetry

pub record IsRanged (c : Client) : Type 0 where
  pub last_client_time_ms : IsU32 c.last_client_time_ms
  pub samples : All IsSample c.history.samples

abbrev pub AllRanged : Server → Type 0
AllRanged s = (k : Text) (c : Client) → lookup k s.clients ≡ some c → IsRanged c

pub IsRanged-frame :
    (c c' : Client)
    → c'.last_client_time_ms ≡ c.last_client_time_ms
    → c'.history ≡ c.history
    → IsRanged c
    → IsRanged c'
IsRanged-frame c c' et eh r = record {
  last_client_time_ms = subst IsU32 (sym et) r.last_client_time_ms;
  samples = subst (λ (h : History). All IsSample h.samples) (sym eh) r.samples;
}

pub AllRanged-frame : (s t : Server) → t.clients ≡ s.clients → AllRanged s → AllRanged t
AllRanged-frame s t e r k c l = r k c (ap (λ (m : List (Text × Client)). lookup k m) (sym e) ∙ l)

pub store-AllRanged :
    (s : Server) (addr : UdpAddr) (c : Client)
    → AllRanged s
    → IsRanged c
    → AllRanged (store s addr c)
unfolding store
store-AllRanged s addr c r h k d l = elim (insert_cases s.clients addr.text k c d l) [
  | inl (_, e) ↦ subst IsRanged e h
  | inr (_, l') ↦ r k d l'
]

new_client-IsRanged :
    (n : ℕ) (addr : UdpAddr) (name : Text) (now : Time) → IsRanged (new_client n addr name now)
unfolding new_client new_history
new_client-IsRanged n addr name now = record { last_client_time_ms = omega arith; samples = tt }

pub client_locked-IsRanged :
    (s : Server) (addr : UdpAddr) (name : Text) (now : Time)
    → AllRanged s
    → let r = client_locked s addr name now in AllRanged r.0 × IsRanged r.1
unfolding client_locked lookup
client_locked-IsRanged s addr name now r = elim (Option-cases (lookup addr.text s.clients)) [
  | inr (c, e) ↦ rw (e, client_locked) (r, r addr.text c e)
  | inl e ↦
      let c = new_client s.next_id addr (default_name s.next_id name) now in
      let h : IsRanged c = new_client-IsRanged s.next_id addr _ now in
      rw (e, client_locked) (unfold store in store-AllRanged s addr c r h, h)
]

drop-All : (n : ℕ) (xs : List Sample) → All IsSample xs → All IsSample (drop n xs)
drop-All zero xs h = h
drop-All (suc n) [] h = tt
drop-All (suc n) (x ∷ xs) h = drop-All n xs h.1

add-All :
    (h : History) (x : Sample)
    → All IsSample h.samples
    → IsSample x
    → All IsSample (add h x).samples
unfolding add
add-All h x all new = elim (Option-cases (last h.samples)) [
  | inl e ↦ rw (e, add) pushed
  | inr (y, e) ↦
      rw (e, add)
        (elim (Bool-cases (ltb y.recv_at x.recv_at)) [ inl t ↦ rw t pushed | inr f ↦ rw f all ])
]
  where
    pushed : All IsSample (push h x).samples
    pushed =
        unfold push in
        drop-All _ (h.samples ++ (x ∷ [])) (All-append IsSample h.samples (x ∷ []) all (new, tt))

accept-IsRanged :
    (c : Client) (st : State) (now : Time) → IsRanged c → IsState st → IsRanged (accept c st now)
unfolding accept sample_of
accept-IsRanged c st now r v = record {
  last_client_time_ms = v.client_time_ms;
  samples = add-All c.history (sample_of st now) r.samples (record {
    client_time_ms = v.client_time_ms;
    transform = v.transform;
    telemetry = v.telemetry;
  });
}

pub take_state-IsRanged :
    (c : Client) (st : State) (now : Time)
    → IsRanged c
    → IsState st
    → IsRanged (take_state c st now)
take_state-IsRanged c st now r v =
    take_state_cases IsRanged c st now (accept-IsRanged c st now r v)
      (accept-IsRanged (record c { history = new_history history_age }) st now
        (record { last_client_time_ms = r.last_client_time_ms; samples = unfold new_history in tt })
        v)
      (IsRanged-frame c _ refl refl r)
