-- ===== src/Server/Sequence.antt =====
-- The sequence check of `state` in internal/server/server.go.
use rbr_mp_server.Common.{
  ℕ, ◌+◌, ◌-◌, ◌%◌, ◌^◌, ◌<◌, ◌≡◌, ◌≢◌, arith, if◌then◌else◌, ltb, leb, ◌==◌,
}
use rbr_mp_server.Common.Int.{to_i32}
use rbr_mp_server.Clock.{Time}
use rbr_mp_server.History.Ring.{new_history, len}
use rbr_mp_server.Protocol.Types.{State}
use rbr_mp_server.Server.Types.{Client, history_age}
use rbr_mp_server.Server.Session.{newer, restarted, reordered, compare_seq, accept, take_state}

-- By how much a sequence number is ahead, on the circle of the 32-bit numbers.
abbrev pub ahead : ℕ → ℕ → ℕ
ahead seq last = (seq + 2 ^ 32 - last) % 2 ^ 32

-- Across the wrap of the 32-bit counter: a number that is 1 to 2 ^ 31 - 1 ahead of the last is newer,
-- the last itself and the 1000 before it are reordered, and all others are a restart.
pub compare_seq_circle :
    (seq last : ℕ)
    → compare_seq seq last ≡ (
        if ahead seq last == 0
        then reordered
        else if ltb (ahead seq last) (2 ^ 31)
        then newer
        else if leb (2 ^ 32 - 1000) (ahead seq last)
        then reordered
        else restarted)
unfolding compare_seq to_i32
compare_seq_circle seq last =
    let below : (seq + 2 ^ 32 - last) % 2 ^ 32 < 2 ^ 32 = omega arith in ground arith

take_state_first :
    (c : Client) (st : State) (now : Time)
    → len c.history ≡ 0
    → take_state c st now ≡ accept c st now
take_state_first c st now e = unfold take_state in ground arith

take_state_newer :
    (c : Client) (st : State) (now : Time)
    → compare_seq st.seq c.last_seq ≡ newer
    → take_state c st now ≡ accept c st now
take_state_newer c st now e = unfold take_state in ground arith

-- Where samples are held, a State whose number compares as reordered with the last one adds one to
-- the count of dropped datagrams and changes nothing else of the client.
pub take_state_reordered :
    (c : Client) (st : State) (now : Time)
    → len c.history ≢ 0
    → compare_seq st.seq c.last_seq ≡ reordered
    → take_state c st now ≡ record c { dropped = (c.dropped + 1) % 2 ^ 64 }
take_state_reordered c st now ne e = unfold take_state in ground arith

take_state_restarted :
    (c : Client) (st : State) (now : Time)
    → len c.history ≢ 0
    → compare_seq st.seq c.last_seq ≡ restarted
    → take_state c st now ≡ accept (record c { history = new_history history_age }) st now
take_state_restarted c st now ne e = unfold take_state in ground arith
