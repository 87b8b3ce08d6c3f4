-- ===== src/Chaos/Recurring/Tests.antt =====
-- The theorems on chaos.ExpandRecurring at a restart of every node in turn.
use xrpl_confluence.Prelude.{ℕ, String, List, [], ◌∷◌}
use xrpl_confluence.Prelude.Int.{pos}
use xrpl_confluence.Chaos.Recurring.{Recurring, RawEntry, Rng}

-- Numbers that are always 0.
abbrev zeros : Rng ℕ
zeros = record { intn = λ n g. (0, g) }

abbrev inner : RawEntry
inner = record {
  step = pos 0;
  recover_after = pos 3;
  type = "restart";
  container = "rippled-*";
  from = "";
  to = "";
  iface = "";
  delay_ms = pos 0;
  delay_ms_min = pos 0;
  delay_ms_max = pos 0;
  feature = "";
  target = "";
}

abbrev spec : Recurring
spec = record {
  every = pos 10;
  start_step = pos 5;
  count = pos 3;
  until_step = pos 0;
  jitter = pos 0;
  inner = inner;
}

abbrev nodes : List String
nodes = "rippled-0" ∷ "goxrpl-0" ∷ []
