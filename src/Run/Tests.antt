-- ===== src/Run/Tests.antt =====
-- The theorem on src/main.rs at concrete runs.
use openfortivpn_rs.Common.{ℕ, false, ◌==◌, ◌&&◌, some}
use openfortivpn_rs.Common.Error.{err, permission_denied}
use openfortivpn_rs.Config.Settings.{Config, default_config}
use openfortivpn_rs.Run.{Attempt, run_with_persistence}
use openfortivpn_rs.Run.Reconnects.{Returns, run_with_persistence-Returns}

-- Each run fails; a stop is seen in the third second behind the second.
abbrev runs : ℕ → Attempt
runs n = record {
  result = err permission_denied;
  stop_requested = false;
  stop_in_wait = λ second. n == 1 && second == 2;
}

abbrev config : Config
config = record default_config { max_reconnects = 3; reconnect_delay = some 5 }

run_with_persistence-Returns_example : Returns runs config 0 (run_with_persistence runs config)
run_with_persistence-Returns_example = run_with_persistence-Returns runs config
