-- ===== src/Scenario/Validate/Tests.antt =====
-- A concrete scenario that scenario.Validate accepts, and the theorems on Validate and its parts at
-- concrete inputs.
use xrpl_confluence.Prelude.{ℕ, ◌≡◌, refl, false, none, [], ◌∷◌, arith, string_eq, nat_eq}
use xrpl_confluence.Prelude.Int.{wrap_int, ℤ, pos, int_eq, ◌+ℤ◌}
use xrpl_confluence.Scenario.{NodeGroup, ChaosEvent, event, Scenario}
use xrpl_confluence.Scenario.Words.{Go, nanoseconds, is_empty, is_kebab}
use xrpl_confluence.Scenario.Report.{refuse_if, each_from}
use xrpl_confluence.Scenario.NodeConfig.{
  validate_node_group, validate_image, validate_entrypoint, validate_config,
}
use xrpl_confluence.Scenario.Validate.{
  is_member, header_errors, name_errors, total_errors, negative_errors, count_errors, is_given,
  goxrpl_errors, network_errors, custom_errors, has_custom_config, has_sections, workload_errors,
  duration_errors, budget_errors, stop_on_values, oracle_names, check_member, stop_on_errors,
  oracle_errors, service_errors, validate,
}
use xrpl_confluence.Scenario.Validate.Accepted.{IsRunnable, validate-IsRunnable}

-- Characters beyond ASCII keep their case, and every duration is one nanosecond.
abbrev pub go : Go
go = record {
  upper_wide = λ n. n;
  lower_wide = λ n. n;
  quote = λ s. s;
  parse_duration = λ s. nanoseconds (pos 1);
}

abbrev pub group : ℤ → NodeGroup
group n = record { count = n; image = ""; entrypoint = none; config = none; nodes = none }

abbrev pub latency : ChaosEvent
latency = event (record {
  step = pos 9;
  recover_after = pos 10;
  kind = "latency";
  container = "goxrpl-0";
  from = "";
  to = "";
  iface = "eth0";
  delay_ms = pos 100;
  delay_ms_min = pos 0;
  delay_ms_max = pos 0;
  feature = "";
  target = "";
})

abbrev pub scenario : Scenario ℕ
scenario = record {
  api_version = "confluence/v1";
  kind = "Scenario";
  metadata = record { name = "chaos-smoke"; description = "" };
  topology = record { rippled = group (pos 3); goxrpl = group (pos 2) };
  network = none;
  workload = record {
    kind = "fuzz";
    tx_rate = pos 5;
    accounts = pos 10;
    rotate_every = pos 0;
    mutation_rate = 0;
    submit_workers = pos 0;
    reproducer = none;
  };
  schedule = latency ∷ [];
  observability = record { enabled = false; alert_webhook_url = "" };
  services = none;
  budget = record { duration = "10m"; stop_on = "first_crash" ∷ [] };
  oracles = "state_diff" ∷ [];
}

pub scenario_valid : validate go scenario ≡ []
unfolding validate header_errors name_errors is_empty is_kebab refuse_if count_errors
    negative_errors total_errors wrap_int ◌+ℤ◌ validate_node_group validate_image
    validate_entrypoint validate_config each_from goxrpl_errors is_given network_errors
    custom_errors has_custom_config has_sections workload_errors budget_errors duration_errors
    stop_on_errors oracle_errors check_member is_member stop_on_values oracle_names service_errors
scenario_valid = refl

validate-IsRunnable_example : IsRunnable go scenario
validate-IsRunnable_example =
    validate-IsRunnable go scenario (omega arith, omega arith) (omega arith, omega arith)
      scenario_valid
