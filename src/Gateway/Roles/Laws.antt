-- ===== src/Gateway/Roles/Laws.antt =====
-- What a successful call of role.service.ts leaves in the database.
use synkro.Base.{
  String, Bool, true, false, not, ◌&&◌, ◌||◌, Option, some, List, [], ◌∷◌, ◌++◌, ◌≡◌, ◌⊎◌, refl,
  sym, ap, subst, inl, inr, ◌∙◌, arith, Result, ok, Action, not_found, failure, ◌>>=◌, or_throw,
  or_throw_then, ◌==◌, eq_iff, or_else, template, Bool-cases, Option-cases, includes,
  includes-append, includes-keep, Distinct, Distinct-concat,
}
use synkro.Gateway.Entities.{Role}
use synkro.Gateway.Repository.{RoleRepository, IsRoleRepository}
use synkro.Gateway.Roles.{find_one, add_permission, remove_permission, add_to, drop_permission}

-- What a role permits.
abbrev pub permits : String → Role → Bool
permits p r = includes p (or_else r.permissions [])

permits_loaded :
    (p : String) (r : Role)
    → permits p r ≡ true
    → record r { permissions = some (or_else r.permissions []) } ≡ r
permits_loaded p r h = elim (Option-cases r.permissions) [
  | inl missing ↦ absurd (ground arith)
  | inr (ps, loaded) ↦ ground arith
]

module _ {Db : Type 0} (roles : RoleRepository Db) (laws : IsRoleRepository roles) where
  find_one_then :
      {A : Type 0} (id : String) (db : Db) (k : Role → Action Db A) (a : A)
      → ((find_one roles id >>= k) db).0 ≡ ok a
      → (r : Role) × (roles.find_by_id id db ≡ some r)
        × ((find_one roles id >>= k) db ≡ k r db)
        × ((k r db).0 ≡ ok a)
  unfolding find_one
  find_one_then id db k a h =
      or_throw_then (roles.find_by_id id db) (not_found (template "Role with ID " id " not found"))
        k db a h

  saved_under :
      (id : String) (r s x : Role) (db : Db)
      → roles.find_by_id id db ≡ some r
      → s.id ≡ r.id
      → (roles.save s db).0 ≡ ok x
      → (x ≡ s) × (roles.find_by_id id (roles.save s db).1 ≡ some x)
  saved_under id r s x db found same saved =
      let own : s.id ≡ id = same ∙ laws.found_id id r db found in
      let answer = laws.save_answer s db x saved in
      (
        answer,
        subst (λ y. roles.find_by_id id (roles.save s db).1 ≡ some y) (sym answer)
            (subst (λ i. roles.find_by_id i (roles.save s db).1 ≡ some s) own
              (laws.save_found s db x saved)),
      )

  -- A role that already permits the permission is answered as it is; else the permission is
  -- written behind those that the role has.
  add_to_ok :
      (r : Role) (p : String) (db : Db) (x : Role)
      → (add_to roles r p db).0 ≡ ok x
      → let s = record r { permissions = some (or_else r.permissions [] ++ p ∷ []) } in
        ((permits p r ≡ true) × (add_to roles r p db ≡ (ok r, db)))
        ⊎ ((permits p r ≡ false)
            × (add_to roles r p db ≡ roles.save s db)
            × ((roles.save s db).0 ≡ ok x))
  add_to_ok r p db x h = elim (Bool-cases (permits p r)) [
    | inl has ↦ inl (has, rw has (ap (λ y. (ok y, db)) (permits_loaded p r has)))
    | inr lacks ↦ inr (lacks, rw lacks, rw lacks at h)
  ]

  -- After a successful `addPermission` the role stored under the id is the one answered; it permits
  -- the permission besides what the role permitted, and lists none twice if the role did not.
  pub add_permission-stored :
      (id p : String) (db : Db) (x : Role)
      → (add_permission roles id p db).0 ≡ ok x
      → (r : Role) × (roles.find_by_id id db ≡ some r)
        × (roles.find_by_id id (add_permission roles id p db).1 ≡ some x)
        × ((q : String) → permits q x ≡ (permits q r || (p == q)))
        × (Distinct (or_else r.permissions []) → Distinct (or_else x.permissions []))
  unfolding add_permission
  add_permission-stored id p db x h =
      let (r, found, same, done) = find_one_then id db (λ r. add_to roles r p) x h in
      elim (add_to_ok r p db x done) [
        | inl (has, kept) ↦
            let own : r ≡ x = ground arith in
            (
              r,
              found,
              rw (same, kept) (found ∙ ap some own),
              λ q. rw (← own) (ground (arith, eq_iff p q)),
              λ d. rw (← own) d,
            )
        | inr (lacks, wrote, saved) ↦
            let s = record r { permissions = some (or_else r.permissions [] ++ p ∷ []) } in
            let (answer, by_id) = saved_under id r s x db found refl saved in
            (
              r,
              found,
              rw (same, wrote) by_id,
              λ q.
                  rw answer (ground (arith, includes-append q (or_else r.permissions []) (p ∷ []))),
              λ d. rw answer (Distinct-concat (or_else r.permissions []) p d lacks),
            )
      ]

  -- After a successful `removePermission` the role stored under the id is the one answered; it
  -- permits what the role permitted except the permission.
  pub remove_permission-stored :
      (id p : String) (db : Db) (x : Role)
      → (remove_permission roles id p db).0 ≡ ok x
      → (r : Role) × (roles.find_by_id id db ≡ some r)
        × (roles.find_by_id id (remove_permission roles id p db).1 ≡ some x)
        × ((q : String) → permits q x ≡ (permits q r && not (q == p)))
  unfolding remove_permission
  remove_permission-stored id p db x h =
      let no_list = failure "Cannot read properties of null" in
      let kept =
        λ (r : Role) (ps : List String). record r { permissions = some (drop_permission p ps) } in
      let (r, found, same, rest) =
        find_one_then id db (λ r. do ps ← or_throw r.permissions no_list; roles.save (kept r ps)) x
          h in
      let (ps, loaded, same', done) =
        or_throw_then r.permissions no_list (λ ps. roles.save (kept r ps)) db x rest in
      let (answer, by_id) = saved_under id r (kept r ps) x db found refl done in
      (
        r,
        found,
        subst (λ (out : Result Role × Db). roles.find_by_id id out.1 ≡ some x) (sym (same ∙ same'))
            by_id,
        λ q.
            ap (permits q) answer
            ∙ includes-keep (λ y. not (y == p)) q ps
            ∙ ap (λ (o : Option (List String)). includes q (or_else o []) && not (q == p))
                (sym loaded),
      )
