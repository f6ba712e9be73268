-- ===== src/Gateway/Monitoring.antt =====
-- api-gateway-auth/src/modules/monitoring/monitoring.service.ts and monitoring.controller.ts, with the
-- memory part of src/modules/metrics/metrics.service.ts. Whether a service answers is a parameter.
pub mod Laws
use synkro.Base.{
  ℕ, ◌+◌, ◌*◌, ◌/◌, ◌<◌, String, Bool, true, false, not, ◌&&◌, Option, none, some, List, [], ◌∷◌,
  ◌++◌, map, ltb, every, Result, ok, err, Failure, Action, ◌>>=◌, pure, if◌then◌else◌,
}

pub data Service : Type 0 where
  notification inventory ai_ml : Service

-- The result of `getStatus`: the key, whether it is up, and the details of the services or the memory
pub data Detail : Type 0 where
  services : List (Service × Bool) → Detail
  database : ℕ → ℕ → Detail
  memory : ℕ → ℕ → ℕ → Detail

pub record HealthIndicatorResult : Type 0 where
  pub key : String
  pub is_healthy : Bool
  pub detail : Detail

abbrev pub all_services : List Service
all_services = notification ∷ inventory ∷ ai_ml ∷ []

-- `checkMicroservices`, where `answers` says of each service whether it answers the pattern `health`
unfoldable pub check_microservices : (Service → Bool) → HealthIndicatorResult
check_microservices answers =
    let statuses = map (λ s. (s, answers s)) all_services in
    record {
      key = "microservices";
      is_healthy = every (λ (status : Service × Bool). status.1) statuses;
      detail = services statuses;
    }

abbrev pub check_database : HealthIndicatorResult
check_database = record { key = "database"; is_healthy = true; detail = database 0 1 }

-- `Math.round(bytes / 1024 / 1024)`: the halves go up
abbrev pub megabytes : ℕ → ℕ
megabytes bytes = (bytes + 524288) / 1048576

abbrev pub threshold : ℕ
threshold = 1024

-- `Math.round((heapUsed / threshold) * 100)`
abbrev pub percentage : ℕ → ℕ
percentage heap_used = (heap_used * 100 + 512) / 1024

-- `checkMemoryUsage`, with `process.memoryUsage().heapUsed`
unfoldable pub check_memory_usage : ℕ → HealthIndicatorResult
check_memory_usage bytes =
    let heap_used = megabytes bytes in
    record {
      key = "memory";
      is_healthy = ltb heap_used threshold;
      detail = memory heap_used threshold (percentage heap_used);
    }

-- the indicators of `MonitoringController.check`
abbrev pub check : (Service → Bool) → ℕ → List HealthIndicatorResult
check answers bytes = check_microservices answers ∷ check_database ∷ check_memory_usage bytes ∷ []
