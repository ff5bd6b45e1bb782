-- ===== src/Server/Relay/Accepted.antt =====
-- state of internal/server/server.go on a State that is accepted.
use rbr_mp_server.Common.{
  ◌+◌, ◌%◌, ◌^◌, ◌<◌, ◌≡◌, refl, ◌∙◌, ◌≢◌, ◌⊎◌, inl, inr, false, none, some, [], arith, ◌==◌,
  Option-cases, Bool-cases, append-nil,
}
use rbr_mp_server.Common.GoMap.{lookup}
use rbr_mp_server.Common.GoMap.Cases.{lookup-insert_self}
use rbr_mp_server.Clock.{Time}
use rbr_mp_server.History.Sample.{Sample}
use rbr_mp_server.History.Ring.{History, new_history, add, len, last, latest}
use rbr_mp_server.History.Bounds.{IsHistory, new_history-IsHistory, latest-add}
use rbr_mp_server.Protocol.Types.{State, IsState, type_state}
use rbr_mp_server.Protocol.Encode.{encode_state}
use rbr_mp_server.Protocol.Decode.{ok, parse_header, decode_state}
use rbr_mp_server.Protocol.Layout.{encode_state-layout}
use rbr_mp_server.Protocol.Header.{parse_header-header}
use rbr_mp_server.Protocol.RoundTrip.{decode_state-encode_state}
use rbr_mp_server.Server.Types.{UdpAddr, Client, Server, history_age}
use rbr_mp_server.Server.Bans.{get}
use rbr_mp_server.Server.Session.{
  Order, newer, restarted, reordered, new_client, client_locked, store, compare_seq, sample_of,
  accept, take_state, state,
}
use rbr_mp_server.Server.Handle.{kicked_recently, dispatch, handle}
use rbr_mp_server.Server.Invariant.{
  Inv, HasIds, client_locked_old, client_locked_new, client_locked-Holds,
}
use rbr_mp_server.Server.Invariant.Handlers.{take_state_frame}
use rbr_mp_server.Server.Invariant.Datagram.{handle_accepted}

-- The client takes the State: it has no samples yet, or the number is not a reordered one, and the
-- clock has moved on since its newest sample.
pub record Accepts (c : Client) (st : State) (now : Time) : Type 0 where
  pub order : (len c.history ≡ 0) ⊎ (compare_seq st.seq c.last_seq ≢ reordered)
  pub later : (x : Sample) → latest c.history ≡ some x → x.recv_at < now

-- A State datagram of a sender that is neither banned nor recently kicked reaches `state`.
pub handle-state :
    (s : Server) (addr : UdpAddr) (st : State) (now : Time)
    → get s.bans addr.ip ≡ none
    → kicked_recently s addr now ≡ false
    → IsState st
    → handle s (encode_state st) addr now ≡ state s addr st now
handle-state s addr st now free welcome v =
    handle_accepted s (encode_state st) addr now type_state free typed
    ∙ unfold dispatch in rw (welcome, read) refl
  where
    typed : parse_header (encode_state st) ≡ ok type_state
    typed = rw (encode_state-layout st) (parse_header-header type_state _ (omega arith))

    read : decode_state (encode_state st) ≡ (st, none)
    read = rw⁻¹ (append-nil (encode_state st)) (decode_state-encode_state st [] v)

latest-add_later :
    (h : History) (x : Sample)
    → IsHistory h
    → ((y : Sample) → latest h ≡ some y → y.recv_at < x.recv_at)
    → latest (add h x) ≡ some x
latest-add_later h x v later = latest-add h x v ∙ elim (Option-cases (latest h)) [
  | inl e ↦ rw e refl
  | inr (y, e) ↦ let before = later y e in rw e (ground arith)
]

no_sample : (y : Sample) → latest (new_history history_age) ≡ some y → ⊥
unfolding latest new_history last
no_sample y p = cc

taken :
    (c : Client) (st : State) (now : Time)
    → IsHistory c.history
    → ((x : Sample) → latest c.history ≡ some x → x.recv_at < now)
    → latest (accept c st now).history ≡ some (sample_of st now)
unfolding accept
taken c st now v later =
    latest-add_later c.history (sample_of st now) v (λ y e. unfold sample_of in later y e)

-- The newest sample is then the one of the State.
take_state-latest :
    (c : Client) (st : State) (now : Time)
    → IsHistory c.history
    → Accepts c st now
    → latest (take_state c st now).history ≡ some (sample_of st now)
unfolding take_state
take_state-latest c st now v a = elim (Bool-cases (len c.history == 0)) [
  | inl e ↦ rw e (taken c st now v a.later)
  | inr e ↦ rw e (by_order e (compare_seq st.seq c.last_seq) refl)
]
  where
    by_order :
        (len c.history == 0) ≡ false
        → (o : Order) → compare_seq st.seq c.last_seq ≡ o
        → latest
            (elim o as (λ _. Client) [
              | newer ↦ accept c st now
              | restarted ↦ accept (record c { history = new_history history_age }) st now
              | reordered ↦ record c { dropped = (c.dropped + 1) % 2 ^ 64 }
            ]).history
          ≡ some (sample_of st now)
    by_order some_held newer e = taken c st now v a.later
    by_order some_held restarted e =
        taken (record c { history = new_history history_age }) st now
          (new_history-IsHistory history_age) (λ y p. absurd (no_sample y p))
    by_order some_held reordered e = elim a.order [
      | inl z ↦ absurd (ground arith)
      | inr ne ↦ absurd (ne e)
    ]

-- The session of the sender after the State.
pub record Heard (s : Server) (addr : UdpAddr) (st : State) (now : Time) : Type 0 where
  pub client : Client
  pub found : lookup addr.text s.clients ≡ some client
  pub newest : latest client.history ≡ some (sample_of st now)
  pub seen : client.last_seen ≡ now

client_locked-Accepts :
    (s : Server) (addr : UdpAddr) (st : State) (now : Time)
    → HasIds s
    → ((c : Client) → lookup addr.text s.clients ≡ some c → Accepts c st now)
    → Accepts (record (client_locked s addr [] now).1 { last_seen = now }) st now
client_locked-Accepts s addr st now ids accepts = elim (Option-cases (lookup addr.text s.clients)) [
  | inr (c, e) ↦
      let a = accepts c e in
      rw (client_locked_old s addr [] now c e) (record { order = a.order; later = a.later })
  | inl e ↦ rw (client_locked_new s addr [] now ids e) (record {
    order = inl (unfold new_client new_history len in refl);
    later = λ x p. absurd (no_sample x (unfold new_client in p));
  })
]

pub state-Heard :
    (s : Server) (addr : UdpAddr) (st : State) (now : Time)
    → HasIds s
    → Inv s
    → ((c : Client) → lookup addr.text s.clients ≡ some c → Accepts c st now)
    → Heard (state s addr st now).0 addr st now
unfolding state store
state-Heard s addr st now ids v accepts =
    let r = client_locked s addr [] now in
    let c = record r.1 { last_seen = now } in
    let (holds, _) = client_locked-Holds s addr [] now ids v in
    record {
      client = take_state c st now;
      found = lookup-insert_self r.0.clients addr.text (take_state c st now);
      newest =
          take_state-latest c st now (holds.inv.sessions.each addr.text r.1 holds.at).history
            (client_locked-Accepts s addr st now ids accepts);
      seen = (take_state_frame c st now).3;
    }
