-- ===== src/Gateway/Monitoring/Laws.antt =====
-- When the gateway calls itself healthy.
use synkro.Base.{ℕ, ◌+◌, ◌<◌, Bool, true, ◌≡◌, ◌↔◌, arith, every}
use synkro.Gateway.Monitoring.{
  Service, notification, inventory, ai_ml, HealthIndicatorResult, check, check_microservices,
  check_memory_usage,
}

-- All indicators are up exactly if the three services answer and the heap holds less than 1023.5
-- megabytes.
pub check-is_healthy :
    (answers : Service → Bool) (bytes : ℕ)
    → (every (λ (h : HealthIndicatorResult). h.is_healthy) (check answers bytes) ≡ true) ↔ (
        (answers notification ≡ true)
        × (answers inventory ≡ true)
        × (answers ai_ml ≡ true)
        × (bytes + 524288 < 1073741824))
unfolding check_microservices check_memory_usage
check-is_healthy answers bytes = ground arith
