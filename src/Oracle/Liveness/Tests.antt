-- ===== src/Oracle/Liveness/Tests.antt =====
-- The theorem on the liveness monitor at a network that stands still.
use xrpl_confluence.Prelude.{◌≡◌, refl, true, [], ◌∷◌, arith, any}
use xrpl_confluence.Prelude.Int.{pos}
use xrpl_confluence.Oracle.Liveness.{
  NodeSnapshot, LivenessConfig, threshold_of, cooldown_of, since, max_seq, max_from, defaulted,
}
use xrpl_confluence.Oracle.Liveness.Reported.{
  Samples, highest, last_advance, events_after, is_recent_stall, events_after-IsReported,
}

abbrev config : LivenessConfig
config = record {
  stall_threshold = pos 60;
  min_expected_peers = pos 0;
  cooldown_between_events = pos 30;
}

abbrev snapshot : NodeSnapshot
snapshot = record {
  name = "rippled-0";
  validated_seq = pos 9;
  peer_count = pos 4;
  server_state = "full";
  sampled_at = 100;
  err = "";
}

abbrev earlier : Samples
earlier = (150, snapshot ∷ []) ∷ (100, snapshot ∷ []) ∷ []

events_after-IsReported_example :
    any (is_recent_stall config 100 170) (events_after config 100 ((170, snapshot ∷ []) ∷ earlier))
    ≡ true
unfolding threshold_of cooldown_of since max_seq max_from highest last_advance defaulted
events_after-IsReported_example =
    events_after-IsReported config 100 170 (snapshot ∷ []) earlier refl (omega arith) (omega arith)
      (omega arith)
