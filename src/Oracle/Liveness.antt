-- ===== src/Oracle/Liveness.antt =====
-- Oracle.Monitor of sidecar/internal/oracle/liveness.go. A tick of its loop is a step; the clock and the snapshots
-- that sampleAll brings back are arguments, and OnEvent and OnSample are called with what a tick returns. An
-- event has the length of its stall in place of the text that names it.
pub mod Reported
pub mod Tests
use Prim.Native.Nat.{◌^◌}
use xrpl_confluence.Prelude.{
  ℕ, ◌-◌, String, Bool, true, false, ◌||◌, ◌&&◌, Option, none, some, List, [], ◌∷◌, ◌++◌,
  if◌then◌else◌, ◌==◌, string_eq, select, leb, ltb, min,
}
use xrpl_confluence.Prelude.Int.{ℤ, pos, pos_part, ltb_ℤ, leb_ℤ}
use xrpl_confluence.Finding.{Time}

pub record NodeSnapshot : Type 0 where
  pub name : String
  pub validated_seq : ℤ
  pub peer_count : ℤ
  pub server_state : String
  pub sampled_at : Time
  pub err : String

pub record LivenessEvent : Type 0 where
  pub kind : String
  pub stall_for : Time
  pub snapshots : List NodeSnapshot

-- The durations in nanoseconds; none of OnEvent is none of the monitor.
pub record LivenessConfig : Type 0 where
  pub stall_threshold : ℤ
  pub min_expected_peers : ℤ
  pub cooldown_between_events : ℤ

defaulted : ℤ → ℕ → ℕ
defaulted d default = if leb_ℤ d (pos 0) then default else pos_part d

pub threshold_of : LivenessConfig → ℕ
unfolding defaulted
threshold_of cfg = defaulted cfg.stall_threshold 60000000000

pub cooldown_of : LivenessConfig → ℕ
unfolding defaulted
cooldown_of cfg = defaulted cfg.cooldown_between_events 30000000000

pub record State : Type 0 where
  pub high_water_seq : ℤ
  pub high_water_time : Time
  pub last_stall_fired_at : Time
  pub last_peer_fired_at : Time

pub new_state : Time → State
new_state now = record {
  high_water_seq = pos 0;
  high_water_time = now;
  last_stall_fired_at = 0;
  last_peer_fired_at = 0;
}

-- `now.Sub(t)` of a time that is not later: no more than a Duration holds.
pub since : Time → Time → ℕ
since now t = min (now - t) (2 ^ 63 - 1)

-- The loop for maxSeq, from what it has.
max_from : ℤ → List NodeSnapshot → ℤ
max_from m [] = m
max_from m (s ∷ ss) = max_from (if ltb_ℤ m s.validated_seq then s.validated_seq else m) ss

pub max_seq : List NodeSnapshot → ℤ
unfolding max_from
max_seq ss = max_from (pos 0) ss

-- The high-water mark behind the samples, and for how long it has stood.
mark : Time → ℤ → State → State × ℕ
mark now m st =
    if ltb_ℤ st.high_water_seq m
    then (record st { high_water_seq = m; high_water_time = now }, 0)
    else (st, since now st.high_water_time)

is_low : ℤ → NodeSnapshot → Bool
is_low expected s = s.err == "" && ltb_ℤ s.peer_count expected

-- The snapshots with too few peers, none where the check is off.
low_on_peers : LivenessConfig → List NodeSnapshot → List NodeSnapshot
unfolding is_low
low_on_peers cfg ss =
    if ltb_ℤ (pos 0) cfg.min_expected_peers then select (is_low cfg.min_expected_peers) ss else []

fire_peers : LivenessConfig → Time → List NodeSnapshot → State → State × Option LivenessEvent
fire_peers cfg now [] st = (st, none)
fire_peers cfg now (b ∷ bad) st =
    if leb (cooldown_of cfg) (since now st.last_peer_fired_at)
    then (
      record st { last_peer_fired_at = now },
      some (record { kind = "peer_drop"; stall_for = 0; snapshots = b ∷ bad }),
    )
    else (st, none)

fire : LivenessConfig → Time → List NodeSnapshot → ℕ → State → State × Option LivenessEvent
unfolding low_on_peers fire_peers
fire cfg now ss stall_for st =
    if leb_ℤ (max_seq ss) st.high_water_seq
      && (leb (threshold_of cfg) stall_for
          && leb (cooldown_of cfg) (since now st.last_stall_fired_at))
    then (
      record st { last_stall_fired_at = now },
      some (record { kind = "consensus_stall"; stall_for = stall_for; snapshots = ss }),
    )
    else fire_peers cfg now (low_on_peers cfg ss) st

-- The body of the loop: the new state, the stall length given to OnSample, and the event.
pub tick : LivenessConfig → Time → List NodeSnapshot → State → State × ℕ × Option LivenessEvent
unfolding mark fire
tick cfg now ss st =
    let (st', stall_for) = mark now (max_seq ss) st in
    let (st'', event) = fire cfg now ss stall_for st' in (st'', stall_for, event)
