-- ===== src/Tools/Settings.antt =====
-- The setters of mqtt-sn-tools/mqtt-sn.c that are not about the forwarder encapsulation.
use ts_it.Base.{ℕ, true, false, Option, List, ltb, if◌then◌else◌}
use ts_it.Tools.State.{M, modify}

-- `MQTT_SN_DEFAULT_TIMEOUT`
abbrev pub default_timeout : ℕ
default_timeout = 10

unfoldable pub set_debug : ℕ → M (Unit {0})
set_debug value = modify (λ c. record c { debug = value })

unfoldable pub set_verbose : ℕ → M (Unit {0})
set_verbose value = modify (λ c. record c { verbose = value })

unfoldable pub set_timeout : ℕ → M (Unit {0})
set_timeout value =
    modify (λ c. record c { timeout = if ltb value 1 then default_timeout else value })

unfoldable pub enable_frwdtn : M (Unit {0})
enable_frwdtn = modify (λ c. record c { forwarder_dtn = true })

unfoldable pub disable_frwdtn : M (Unit {0})
disable_frwdtn = modify (λ c. record c { forwarder_dtn = false })

-- It sets the parameters of the forwarder encapsulation.
pub set_frwdtn_parameters : Option (List ℕ) → ℕ → M (Unit {0})
set_frwdtn_parameters id len =
    modify (λ c. record c { wireless_node_id = id; wireless_node_id_len = len })
