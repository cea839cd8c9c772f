-- ===== src/Dynsec/Clients/Grace.antt =====
-- How long `isConfiguredDefaultRoleMissing` waits for the broker's state to show the bootstrap's role.
use mqttctl.Prelude.{ℕ, ◌+◌, Bool, true, false, Option, none, some, leb, if◌then◌else◌}
use mqttctl.Dynsec.Task.{Service, Result, ok}

-- A check while the state has no bootstrap role.
abbrev checked : ℕ → Option ℕ → Service → Result Bool × Service
checked now none w = (ok true, w)
checked now (some t) w =
    if leb (t + 10000) now then (ok true, record w { provisioned_at = none }) else (ok false, w)
