-- ===== src/Http/Hooks/Settling.antt =====
-- A hook stops loading.
use synkro.Base.{
  suc, ◌-◌, false, List, [], ◌∷◌, ◌++◌, ◌≡◌, ◌≢◌, ◌⊎◌, inl, inr, refl, sym, ap, ◌∙◌, subst, arith,
  eqb, length, Result, ok, err, if-holds,
}
use synkro.Http.Hooks.{Hook, new_hook, begin, finish, Event, called, answered, step, run, answers}

-- While no call waits, the hook is not loading.
abbrev pub IsQuiet : Hook → Type 0
IsQuiet h = (h.waiting ≢ 0) ⊎ (h.loading ≡ false)

module _ {B : Type 0} where
  finish-fields :
      (r : Result B) (h : Hook)
      → ((finish r h).loading ≡ false) × ((finish r h).waiting ≡ h.waiting - 1)
  unfolding finish
  finish-fields (ok b) h = (refl, refl)
  finish-fields (err e) h = (refl, refl)

  step-answered : (r : Result B) (h : Hook) → h.waiting ≢ 0 → step (answered r) h ≡ finish r h
  unfolding step
  step-answered r h ne = let waits : eqb h.waiting 0 ≡ false = ground arith in rw waits refl

  step-IsQuiet : (e : Event B) (h : Hook) → IsQuiet h → IsQuiet (step e h)
  unfolding step begin
  step-IsQuiet called h q = inl (ground arith)
  step-IsQuiet (answered r) h q =
      if-holds IsQuiet (eqb h.waiting 0) h _ q (inr (finish-fields r h).0)

  run-IsQuiet : (es : List (Event B)) (h : Hook) → IsQuiet h → IsQuiet (run es h)
  unfolding run
  run-IsQuiet [] h q = q
  run-IsQuiet (e ∷ es) h q = run-IsQuiet es (step e h) (step-IsQuiet e h q)

  answers-settle :
      (rs : List (Result B)) (h : Hook)
      → IsQuiet h
      → length rs ≡ h.waiting
      → ((run (answers rs) h).loading ≡ false) × ((run (answers rs) h).waiting ≡ 0)
  unfolding run step
  answers-settle [] h q e = (ground arith, sym e)
  answers-settle (r ∷ rs) h q e =
      let (l, w) = finish-fields r h in
      subst (λ h'. ((run (answers rs) h').loading ≡ false) × ((run (answers rs) h').waiting ≡ 0))
        (sym (step-answered r h (ground (arith, e))))
        (answers-settle rs (finish r h) (inr l) (omega (arith, e, w)))

  run-append : (es fs : List (Event B)) (h : Hook) → run (es ++ fs) h ≡ run fs (run es h)
  unfolding run
  run-append [] fs h = refl
  run-append (e ∷ es) fs h = run-append es fs (step e h)

  -- An answer where two calls have just been made.
  early :
      (r : Result B) (h : Hook)
      → ((run (called ∷ called ∷ answered r ∷ []) h).loading ≡ false)
        × ((run (called ∷ called ∷ answered r ∷ []) h).waiting ≡ suc h.waiting)
  unfolding run step begin
  early r h =
      let h2 = begin (begin h) in
      let (l, w) = finish-fields r h2 in
      let e = step-answered r h2 (ground arith) in
      (ap (λ h'. h'.loading) e ∙ l, ap (λ h'. h'.waiting) e ∙ w ∙ (omega arith))

  -- After any calls and answers, in any order, a hook is not loading while no call waits; and once
  -- the calls that wait are answered, successfully or not, it is not loading and none waits. But of
  -- two calls that overlap the first answer ends the loading, while the other still waits.
  pub run-settles :
      (es : List (Event B)) (rs : List (Result B)) (r : Result B)
      → length rs ≡ (run es new_hook).waiting
      → IsQuiet (run es new_hook)
        × (((run (es ++ answers rs) new_hook).loading ≡ false)
            × ((run (es ++ answers rs) new_hook).waiting ≡ 0))
        × (((run (es ++ called ∷ called ∷ answered r ∷ []) new_hook).loading ≡ false)
            × ((run (es ++ called ∷ called ∷ answered r ∷ []) new_hook).waiting
                ≡ suc (run es new_hook).waiting))
  run-settles es rs r e =
      let quiet = run-IsQuiet es new_hook (inr refl) in
      let split = λ (fs : List (Event B)). run-append es fs new_hook in
      let (l, w) = answers-settle rs (run es new_hook) quiet e in
      let (l', w') = early r (run es new_hook) in
      (
        quiet,
        (
          ap (λ h. h.loading) (split (answers rs)) ∙ l,
          ap (λ h. h.waiting) (split (answers rs)) ∙ w,
        ),
        (ap (λ h. h.loading) (split _) ∙ l', ap (λ h. h.waiting) (split _) ∙ w'),
      )
