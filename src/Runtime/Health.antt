-- ===== src/Runtime/Health.antt =====
-- src/ai_company/runtime/health.py: HealthMonitor. A registered component is its probe, a function
-- of the world that raises or answers with the text under "status", if there is one; `lower` is
-- Python's str.lower, and `system_check` the check that asks psutil. Names of checks, details and
-- error texts are left out.
use ai_enterprise_os.Prelude.{
  String, Bool, true, false, ◌||◌, Option, none, some, List, [], ◌∷◌, ◌==◌, if◌then◌else◌, any,
}
use ai_enterprise_os.Dict.{Dict, has, insert, erase}
use ai_enterprise_os.Runtime.Heartbeat.{HealthStatus, healthy, degraded, unhealthy}

pub data Probed : Type 0 where
  raised : String → Probed
  answered : Option String → Probed

pub record HealthCheck : Type 0 where
  pub component : String
  pub status : HealthStatus

pub record HealthMonitor (W : Type 0) : Type 0 where
  pub components : Dict (W → Probed × W)
  pub lower : String → String
  pub system_check : W → HealthStatus × W

-- `HealthStatus(status_raw)`, and what stands for a text that is no status.
status_of : String → HealthStatus
status_of raw =
    if raw == "healthy"
    then healthy
    else (if raw == "degraded"
        then degraded
        else (if raw == "unhealthy"
            then unhealthy
            else (if raw == "ok" || raw == "running" || raw == "active"
                then healthy
                else unhealthy)))

probed_status : (String → String) → Probed → HealthStatus
unfolding status_of
probed_status lower (raised e) = unhealthy
probed_status lower (answered none) = status_of (lower "healthy")
probed_status lower (answered (some raw)) = status_of (lower raw)

abbrev pub is_unhealthy : HealthCheck → Bool
is_unhealthy c = elim c.status [ healthy ↦ false | degraded ↦ false | unhealthy ↦ true ]

abbrev pub is_degraded : HealthCheck → Bool
is_degraded c = elim c.status [ healthy ↦ false | degraded ↦ true | unhealthy ↦ false ]

-- `aggregate` of checks that were made.
unfoldable pub worst : List HealthCheck → HealthStatus
worst checks =
    if any is_unhealthy checks
    then unhealthy
    else (if any is_degraded checks then degraded else healthy)

module _ {W : Type 0} where
  unfoldable pub register : String → (W → Probed × W) → HealthMonitor W → HealthMonitor W
  register name component m = record m { components = insert name component m.components }

  unfoldable pub unregister : String → HealthMonitor W → HealthMonitor W × Bool
  unregister name m = (record m { components = erase name m.components }, has name m.components)

  probe_component : HealthMonitor W → String → (W → Probed × W) → W → HealthCheck × W
  unfolding probed_status
  probe_component m name component w =
      let (p, w') = component w in
      (record { component = name; status = probed_status m.lower p }, w')

  -- The loop of `check_all`, and the system's check behind it.
  check_each : HealthMonitor W → Dict (W → Probed × W) → W → List HealthCheck × W
  unfolding probe_component
  check_each m [] w =
      let (status, w') = m.system_check w in
      (record { component = "system"; status = status } ∷ [], w')
  check_each m ((name, component) ∷ rest) w =
      let (c, w') = probe_component m name component w in
      let (cs, w'') = check_each m rest w' in (c ∷ cs, w'')

  unfoldable pub check_all : HealthMonitor W → W → List HealthCheck × W
  unfolding check_each
  check_all m w = check_each m m.components w

  -- `checks or self.check_all()`
  unfoldable pub aggregate : List HealthCheck → HealthMonitor W → W → HealthStatus × W
  unfolding worst check_all
  aggregate [] m w = let (checks, w') = check_all m w in (worst checks, w')
  aggregate (c ∷ cs) m w = (worst (c ∷ cs), w)
