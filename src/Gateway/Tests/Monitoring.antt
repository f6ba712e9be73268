-- ===== src/Gateway/Tests/Monitoring.antt =====
-- The health of the gateway at a concrete input.
use synkro.Base.{◌+◌, ◌<◌, true, ◌≡◌, ◌↔◌, every}
use synkro.Gateway.Monitoring.{Service, HealthIndicatorResult, check}
use synkro.Gateway.Monitoring.Laws.{check-is_healthy}

check-is_healthy_example :
    (every (λ (h : HealthIndicatorResult). h.is_healthy) (check (λ (s : Service). true) 5000000)
      ≡ true)
    ↔ ((true ≡ true) × (true ≡ true) × (true ≡ true) × (5000000 + 524288 < 1073741824))
check-is_healthy_example = check-is_healthy (λ s. true) 5000000
