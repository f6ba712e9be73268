-- ===== src/Analytics/Validation/Completion.antt =====
-- `validateChartData` of frontend-dashboard/src/hooks/useAnalytics.ts: a chart of a known type has the
-- fields that are filled in for its type.
use synkro.Base.{String, Option, ◌≡◌, refl, ◌∙◌, subst, ok, All, ok-injective}
use synkro.Analytics.Values.{Value, Fields, BuiltIns, get_field}
use synkro.Analytics.Validation.{
  ChartType, sankey, pie, funnel, line_or_area, stacked_bar, other_chart, complete, find_key,
  is_text, is_numeric, find_axis,
}
use synkro.Analytics.Validation.Reading.{Extends, Extends-trans}
use synkro.Analytics.Validation.Laws.{
  completed_fields, >>=-inv, Has, IsFilled, default_to-IsFilled, fill-IsFilled,
  fill_metrics-Extends,
}

module _ {N : Type 0} (js : BuiltIns N) where
  pub record IsCompleted (t : ChartType) (meta done : Fields N) : Type 0 where
    pub has : All (Has js done) (completed_fields t)
    pub kept : Extends js meta done
    pub same_type : get_field "type" done ≡ get_field "type" meta

  -- what a later write keeps
  still : (meta done : Fields N) (k : String) → Extends js meta done → Has js meta k → Has js done k
  still meta done k e h = rw (e k h) h

  two_filled :
      {a b : String} {meta m done : Fields N}
      → IsFilled js a meta m
      → IsFilled js b m done
      → Has js done a
        × Has js done b
        × Extends js meta done
        × (get_field "type" done ≡ get_field "type" meta)
  two_filled {a} {b} {meta} {m} {done} p q = (
    still m done a q.kept p.filled,
    q.filled,
    Extends-trans js meta m done p.kept q.kept,
    q.same_type ∙ p.same_type,
  )

  three_filled :
      {a b c : String} {meta m n done : Fields N}
      → IsFilled js a meta m
      → IsFilled js b m n
      → IsFilled js c n done
      → Has js done a
        × Has js done b
        × Has js done c
        × Extends js meta done
        × (get_field "type" done ≡ get_field "type" meta)
  three_filled {a} {b} {c} {meta} {m} {n} {done} p q r =
      let (x, y, e, t) = two_filled p q in
      (
        still n done a r.kept x,
        still n done b r.kept y,
        r.filled,
        Extends-trans js meta n done e r.kept,
        r.same_type ∙ t,
      )

  pub complete-IsCompleted :
      (t : ChartType) (dat : Option (Value N)) (meta done : Fields N)
      → complete js t dat meta ≡ ok done
      → IsCompleted t meta done
  unfolding complete
  complete-IsCompleted sankey dat meta done e =
      subst (IsCompleted sankey meta) (ok-injective _ done e) (
        let (x, y, z, k, t) =
          three_filled (default_to-IsFilled js "source" "source" meta refl refl)
            (default_to-IsFilled js "target" "target" _ refl refl)
            (default_to-IsFilled js "value" "value" _ refl refl) in
        record { has = (x, (y, (z, tt))); kept = k; same_type = t })
  complete-IsCompleted pie dat meta done e =
      let (m, f, g) = >>=-inv _ _ done e in
      let (x, y, k, t) =
        two_filled
          (fill-IsFilled js (find_key is_text) "dimension" "dimension" "dimension" dat meta m refl
            refl refl f)
          (fill-IsFilled js (find_key (is_numeric js)) "metric" "metric" "metric" dat m done refl
            refl refl g) in
      record { has = (x, (y, tt)); kept = k; same_type = t }
  complete-IsCompleted funnel dat meta done e =
      let (m, f, g) = >>=-inv _ _ done e in
      let (n, g', l) = >>=-inv _ _ done g in
      let (x, y, k, t) =
        two_filled
          (fill-IsFilled js (find_key is_text) "dimension" "stage" "stage" dat meta m refl refl refl
            f)
          (fill-IsFilled js (find_key (is_numeric js)) "metric" "count" "count" dat m n refl refl
            refl g') in
      let (k', t') = fill_metrics-Extends js dat n done l in
      record {
        has = (still n done "dimension" k' x, (still n done "metric" k' y, tt));
        kept = Extends-trans js meta n done k k';
        same_type = t' ∙ t;
      }
  complete-IsCompleted line_or_area dat meta done e =
      let (m, f, g) = >>=-inv _ _ done e in
      let (x, y, k, t) =
        two_filled
          (fill-IsFilled js (find_axis js) "xAxis" "xAxis" "xAxis" dat meta m refl refl refl f)
          (fill-IsFilled js (find_key (is_numeric js)) "yAxis" "count" "yAxis" dat m done refl refl
            refl g) in
      record { has = (x, (y, tt)); kept = k; same_type = t }
  complete-IsCompleted stacked_bar dat meta done e =
      subst (IsCompleted stacked_bar meta) (ok-injective _ done e) (
        let (x, y, z, k, t) =
          three_filled (default_to-IsFilled js "xAxis" "xAxis" meta refl refl)
            (default_to-IsFilled js "yAxis" "yAxis" _ refl refl)
            (default_to-IsFilled js "groupBy" "groupBy" _ refl refl) in
        record { has = (x, (y, (z, tt))); kept = k; same_type = t })
  complete-IsCompleted other_chart dat meta done e =
      subst (IsCompleted other_chart meta) (ok-injective meta done e)
        (record { has = tt; kept = λ k h. refl; same_type = refl })
