-- ===== src/Analytics/Service/Groups.antt =====
-- The charts of `AnalyticsController` come in the order of its fields, or not at all.
use synkro.Base.{
  ℕ, String, Option, false, none, some, subst, List, [], ◌∷◌, map, ◌≡◌, refl, sym, ◌∙◌, ap, ◌↔◌,
  arith, Result, ok, err, all_of, ok-injective,
}
use synkro.Http.{FetchCall, Outcome}
use synkro.Charts.{DateFns, Numbers}
use synkro.Charts.Volume.{TimeInputs}
use synkro.Analytics.{AnalyticsMethod, method}
use synkro.Analytics.Values.{Value, BuiltIns, get_property}
use synkro.Analytics.Validation.Laws.{>>=-inv}
use synkro.Http.Calls.{get}
use synkro.Http.BaseService.{new_service, base_perform}
use synkro.Analytics.Service.{
  AnalyticsGroup, inventory, orders, transactions, performance, business, group_methods,
  format_chart_data, format_response, get_chart, get_group, endpoint,
}

all_of-ok : {A : Type 0} (xs : List A) → all_of (map ok xs) ≡ ok xs
all_of-ok [] = refl
all_of-ok (x ∷ xs) = rw (all_of-ok xs) refl

all_of-inv : {A : Type 0} (rs : List (Result A)) (xs : List A) → all_of rs ≡ ok xs → rs ≡ map ok xs
all_of-inv [] xs h = ap (map ok) (ok-injective [] xs h)
all_of-inv (err e ∷ rs) xs h = absurd (ground arith)
all_of-inv {A} (ok a ∷ rs) xs h = go (all_of rs) refl (λ ys. all_of-inv rs ys)
  where
    go :
        (r : Result (List A))
        → all_of rs ≡ r
        → ((ys : List A) → all_of rs ≡ ok ys → rs ≡ map ok ys)
        → ok a ∷ rs ≡ map ok xs
    go (ok ys) e ih =
        let same : a ∷ ys ≡ xs = ok-injective _ xs (sym (rw e refl) ∙ h) in
        ap (λ ts. ok a ∷ ts) (ih ys e) ∙ ap (map ok) same
    go (err f) e ih = absurd (ground (arith, e))

-- The paths of the charts of a group, in the order of its fields.
abbrev pub paths_of : AnalyticsGroup → List String
paths_of inventory =
    "/api/analytics/inventory/stock-trends" ∷ "/api/analytics/inventory/distribution"
    ∷ "/api/analytics/inventory/warehouse-distribution" ∷ "/api/analytics/inventory/reorder-points"
    ∷ []
paths_of orders =
    "/api/analytics/orders/flow" ∷ "/api/analytics/orders/pipeline"
    ∷ "/api/analytics/orders/lifecycle" ∷ "/api/analytics/orders/volume-trends"
    ∷ "/api/analytics/orders/value-distribution" ∷ "/api/analytics/orders/peak-times" ∷ []
paths_of transactions =
    "/api/analytics/transactions/volume" ∷ "/api/analytics/transactions/stock-movements"
    ∷ "/api/analytics/transactions/metrics" ∷ "/api/analytics/transactions/patterns"
    ∷ "/api/analytics/transactions/clusters" ∷ "/api/analytics/transactions/flow" ∷ []
paths_of performance =
    "/api/analytics/performance/metrics" ∷ "/api/analytics/performance/trends"
    ∷ "/api/analytics/performance/health" ∷ "/api/analytics/performance/resources" ∷ []
paths_of business =
    "/api/analytics/business/financial" ∷ "/api/analytics/business/revenue"
    ∷ "/api/analytics/business/hierarchical" ∷ "/api/analytics/business/forecast"
    ∷ "/api/analytics/business/trends" ∷ []

module _ {N : Type 0} (js : BuiltIns N) (inputs : TimeInputs N) (dates : DateFns)
    (numbers : Numbers N) where
  -- The hook asks for the same charts at the same paths.
  paths-eq :
      (g : AnalyticsGroup)
      → map (λ m. (method js inputs dates numbers m).path) (group_methods g) ≡ paths_of g
  paths-eq inventory = refl
  paths-eq orders = refl
  paths-eq transactions = refl
  paths-eq performance = refl
  paths-eq business = refl

endpoints-eq : (g : AnalyticsGroup) → map endpoint (group_methods g) ≡ paths_of g
endpoints-eq inventory = refl
endpoints-eq orders = refl
endpoints-eq transactions = refl
endpoints-eq performance = refl
endpoints-eq business = refl

module _ {N : Type 0} (js : BuiltIns N) (url : String → Option (Unit {0}) → String)
    (show : ℕ → String) (base_url : String) (fetch : FetchCall (Value N) → Outcome (Value N)) where
  -- A GET request to the path is answered with a body, whose data and metadata are formatted to the chart.
  abbrev pub IsChartAt : String → Value N → Type 0
  IsChartAt path c =
      (body : Value N) × (base_perform url show (new_service base_url none none)
          (λ (d : Value N). d) (λ d. false) fetch (get path none)
        ≡ ok body)
      × ((dat : Option (Value N)) × (metadata : Option (Value N)) × (get_property "data" (some body)
            ≡ ok dat)
          × (get_property "metadata" (some body) ≡ ok metadata)
          × (format_chart_data js dat metadata ≡ ok c))

  -- One chart for each path, in the same order.
  abbrev pub AreChartsAt : List String → List (Value N) → Type 0
  AreChartsAt [] [] = Unit
  AreChartsAt (p ∷ ps) (c ∷ cs) = IsChartAt p c × AreChartsAt ps cs
  AreChartsAt _ _ = ⊥

  get_chart-IsChartAt :
      (m : AnalyticsMethod) (c : Value N)
      → (get_chart js url show base_url fetch m ≡ ok c) ↔ IsChartAt (endpoint m) c
  unfolding get_chart format_response
  get_chart-IsChartAt m c = (
    λ h.
        let (body, e, f) = >>=-inv _ (format_response js) c h in
        let (dat, k, l) = >>=-inv (get_property "data" (some body)) _ c f in
        let (metadata, n, o) = >>=-inv (get_property "metadata" (some body)) _ c l in
        (body, e, (dat, metadata, k, n, o)),
    λ (body, e, (dat, metadata, k, n, o)). rw (e, k, n) o,
  )

  charts-AreChartsAt :
      (ms : List AnalyticsMethod) (cs : List (Value N))
      → (map (get_chart js url show base_url fetch) ms ≡ map ok cs)
        ↔ AreChartsAt (map endpoint ms) cs
  charts-AreChartsAt [] [] = (λ h. tt, λ h. refl)
  charts-AreChartsAt [] (c ∷ cs) = (λ h. absurd (ground arith), λ h. absurd h)
  charts-AreChartsAt (m ∷ ms) [] = (λ h. absurd (ground arith), λ h. absurd h)
  charts-AreChartsAt (m ∷ ms) (c ∷ cs) = (
    λ h. ((get_chart-IsChartAt m c).0 cc, (charts-AreChartsAt ms cs).0 cc),
    λ (one, rest). λ i. (get_chart-IsChartAt m c).1 one i ∷ (charts-AreChartsAt ms cs).1 rest i,
  )

-- A method of the controller gives charts exactly if every chart of its group, in the order of its
-- fields, comes of a GET request to its path that is answered with a body whose data and metadata
-- `formatChartData` makes that chart of. The hook asks for the charts of the group at the same paths.
pub get_group_iff :
    {N : Type 0} (js : BuiltIns N) (inputs : TimeInputs N) (dates : DateFns) (numbers : Numbers N)
    (url : String → Option (Unit {0}) → String) (show : ℕ → String) (base_url : String)
    (fetch : FetchCall (Value N) → Outcome (Value N)) (g : AnalyticsGroup) (charts : List (Value N))
    → ((get_group js url show base_url fetch g ≡ ok charts)
        ↔ AreChartsAt js url show base_url fetch (paths_of g) charts)
      × (map (λ m. (method js inputs dates numbers m).path) (group_methods g) ≡ paths_of g)
unfolding get_group
get_group_iff js inputs dates numbers url show base_url fetch g charts =
    let (f, k) = charts-AreChartsAt js url show base_url fetch (group_methods g) charts in
    let At : List String → Type 0 = λ ps. AreChartsAt js url show base_url fetch ps charts in
    (
      (
        λ h. subst At (endpoints-eq g) (f (all_of-inv _ charts h)),
        λ h. ap all_of (k (subst At (sym (endpoints-eq g)) h)) ∙ all_of-ok charts,
      ),
      paths-eq js inputs dates numbers g,
    )
