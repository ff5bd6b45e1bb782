-- ===== src/Server/Stats.antt =====
-- statsLoop and tickLoop of internal/server/server.go, up to the closing of `done`. The floating-point
-- arithmetic of the line is a parameter.
pub mod Traffic
use rbr_mp_server.Common.{ℕ, ◌+◌, ◌-◌, ◌%◌, ◌^◌, List, [], ◌∷◌, length}
use rbr_mp_server.Clock.{Time, Duration}
use rbr_mp_server.Server.Types.{Server}
use rbr_mp_server.Server.Tick.{tick}
use rbr_mp_server.Server.Handle.{Network, send_all}

-- `of_uint` converts a uint64 to a float64; `kilo` is the constant 1024.
pub record Float64 : Type 0 where
  pub of_uint : ℕ → ℕ
  pub seconds : Duration → ℕ
  pub div : ℕ → ℕ → ℕ
  pub kilo : ℕ

-- The counters that the loop has read, under the lock.
pub record Counters : Type 0 where
  pub rx : ℕ
  pub tx : ℕ
  pub rx_bytes : ℕ
  pub tx_bytes : ℕ

abbrev pub nothing_yet : Counters
nothing_yet = record { rx = 0; tx = 0; rx_bytes = 0; tx_bytes = 0 }

unfoldable pub read_counters : Server → Counters
read_counters s = record {
  rx = s.rx_count;
  tx = s.tx_count;
  rx_bytes = s.rx_bytes;
  tx_bytes = s.tx_bytes;
}

-- What a line says: packets and kilobytes per second, in and out.
pub record Line : Type 0 where
  pub clients : ℕ
  pub packets_in : ℕ
  pub kilobytes_in : ℕ
  pub packets_out : ℕ
  pub kilobytes_out : ℕ

-- The difference of two uint64.
unfoldable pub minus_64 : ℕ → ℕ → ℕ
minus_64 a b = (a + (2 ^ 64 - b)) % 2 ^ 64

module _ (o : Float64) (every : Duration) where
  -- `float64(n)/secs` and `float64(n)/secs/1024`
  unfoldable pub per_second : ℕ → ℕ
  per_second n = o.div (o.of_uint n) (o.seconds every)

  unfoldable pub kilobytes : ℕ → ℕ
  unfolding per_second
  kilobytes n = o.div (per_second n) o.kilo

  unfoldable pub stats_line : Counters → Server → Line
  unfolding read_counters minus_64 per_second kilobytes
  stats_line last s =
      let c = read_counters s in
      record {
        clients = length s.clients;
        packets_in = per_second (minus_64 c.rx last.rx);
        kilobytes_in = kilobytes (minus_64 c.rx_bytes last.rx_bytes);
        packets_out = per_second (minus_64 c.tx last.tx);
        kilobytes_out = kilobytes (minus_64 c.tx_bytes last.tx_bytes);
      }

  -- The loop, over the server as it is at each tick of the loop's own ticker.
  unfoldable pub stats_loop : Counters → List Server → List Line
  unfolding stats_line read_counters
  stats_loop last [] = []
  stats_loop last (s ∷ ss) = stats_line last s ∷ stats_loop (read_counters s) ss

-- The ticker's loop, where nothing else happens between its ticks.
unfoldable pub tick_loop : Network → Server → List Time → Server
tick_loop net s [] = s
tick_loop net s (now ∷ ts) = let (t, out) = tick s now in tick_loop net (send_all net t out) ts
