-- ===== src/System/Resources/Changes.antt =====
-- The writing methods of resource_service.go as steps of the access control on each resource.
use addp.Common.{
  ℕ, List, true, ok, err, some, ◌≡◌, ◌⊎◌, refl, ap, arith, inl, inr, ◌==◌, ==_iff, Bool-cases,
}
use addp.Common.Outcome.{Exec-cases, Result-cases}
use addp.Cipher.{Crypto}
use addp.System.Models.{
  super_admin, tenant_admin, User, Resource, ResourceCreateRequest, ResourceUpdateRequest,
}
use addp.System.Store.{Store, Database, IsDatabase}
use addp.System.ResourceRepository
use addp.System.Access.{Acts, Manages, ResourceStep, kept, made, changed, removed}
use addp.System.Resources.{
  create, update, delete, load, new_info, new_resource, updated_resource, authorize_resource_access,
  ensure_resource_management_permission, encrypt_sensitive_fields,
}
use addp.System.Resources.Frame.{load_read}
use addp.System.Resources.Access.{may_reach}

module _ {U T R L : Type 0} (db : Database U T R L) {Byte : Type 0} (crypto : Crypto Byte)
    (key : List Byte) (laws : IsDatabase db) (s : Store U T R L) (actor : ℕ) where
  -- a caller whom the check of the manager lets pass
  abbrev IsManager : User → Type 0
  IsManager u = (u.user_type ≡ super_admin) ⊎ (u.user_type ≡ tenant_admin)

  passed-IsManager : (u : User) → ensure_resource_management_permission u ≡ ok tt → IsManager u
  unfolding ensure_resource_management_permission
  passed-IsManager u h = ground arith

  reached-Manages : (u : User) (r : Resource) → may_reach u r ≡ true → IsManager u → Manages db u r
  reached-Manages u r reach manager = ground arith

  -- a state whose resources are as they were
  same-ResourceStep :
      (t : Store U T R L) (j : ℕ) → t.resources ≡ s.resources → ResourceStep db actor s t j
  same-ResourceStep t j same = kept (ap (λ rs. db.resources.at rs j) same)

  load_inv :
      (id : ℕ) (current : User) (r : Resource) (t : Store U T R L)
      → load db crypto key id actor s ≡ (ok (current, r), t)
      → (t ≡ s)
        × Acts db s actor current
        × (db.resources.at s.resources r.id ≡ some r)
        × (may_reach current r ≡ true)
        × (r.id ≡ id)
  unfolding load authorize_resource_access
  load_inv id current r t h = elim (Result-cases (db.users.first s.users actor)) [
    | inl (e, bad) ↦ absurd (ground arith)
    | inr (u, asking) ↦ elim (Result-cases (db.resources.first s.resources id)) [
      | inl (e, bad) ↦ absurd (ground arith)
      | inr (row, found) ↦
          let known = laws.users.first_ok s.users actor u asking in
          let there = laws.resources.first_ok s.resources id row found in
          let own = laws.resources.at_key s.resources id row there in
          (ground arith, ground arith, ground arith, ground arith, ground arith)
    ]
  ]

  pub create-ResourceStep :
      (req : ResourceCreateRequest) (draw j : ℕ)
      → ResourceStep db actor s (create db crypto key req actor draw s).1 j
  unfolding create ResourceRepository.create
  create-ResourceStep req draw j = elim (Result-cases (db.users.first s.users actor)) [
    | inl (e, bad) ↦ same-ResourceStep _ j (ground arith)
    | inr (u, asking) ↦ elim (Result-cases (ensure_resource_management_permission u)) [
      | inl (e, bad) ↦ same-ResourceStep _ j (ground arith)
      | inr (x, passed) ↦
          elim (Result-cases (encrypt_sensitive_fields crypto key req.connection_info draw)) [
            | inl (e, bad) ↦ same-ResourceStep _ j (ground arith)
            | inr (info, hidden) ↦
                let new = new_resource req u actor info in
                elim (Result-cases (db.resources.create s.resources new)) [
                  | inl (e, bad) ↦ same-ResourceStep _ j (ground arith)
                  | inr ((row, rs), done) ↦
                      let at = laws.resources.create_at s.resources new row rs done j in
                      let (positive, shape, absent) =
                        laws.resources.create_row s.resources new row rs done in
                      elim (Bool-cases (row.id == j)) [
                        | inl here ↦
                            made u row (laws.users.first_ok s.users actor u asking)
                              (passed-IsManager u passed) (ground (arith, absent, ==_iff row.id j))
                              (ground arith) (ap (λ r. r.tenant_id) shape)
                              (ap (λ r. r.created_by) shape)
                        | inr other ↦ kept (ground arith)
                      ]
                ]
          ]
    ]
  ]

  pub update-ResourceStep :
      (id : ℕ) (req : ResourceUpdateRequest) (draw j : ℕ)
      → ResourceStep db actor s (update db crypto key id req actor draw s).1 j
  unfolding update ResourceRepository.update
  update-ResourceStep id req draw j = elim (Exec-cases (load db crypto key id actor s)) [
    | inl (e, t, bad) ↦
        let same = load_read db crypto key s t id actor (err e) bad in
        same-ResourceStep _ j (ground (arith, same))
    | inr ((current, r), t, good) ↦
        let (same, acts, there, reach, own) = load_inv id current r t good in
        elim (Result-cases (ensure_resource_management_permission current)) [
          | inl (e, bad) ↦ same-ResourceStep _ j (ground arith)
          | inr (x, passed) ↦
              elim (Result-cases
                (new_info db crypto key req.connection_info draw r.connection_info)) [
                  | inl (e, bad) ↦ same-ResourceStep _ j (ground arith)
                  | inr (info, hidden) ↦
                      let new = updated_resource req r info in
                      elim (Result-cases (db.resources.save s.resources new)) [
                        | inl (e, bad) ↦ same-ResourceStep _ j (ground arith)
                        | inr (rs, saved) ↦
                            let at = laws.resources.save_at s.resources new r rs there saved j in
                            elim (Bool-cases (r.id == j)) [
                              | inl here ↦
                                  changed current r new acts
                                    (reached-Manages current r reach
                                      (passed-IsManager current passed))
                                    (ground (arith, ==_iff r.id j)) (ground arith) refl refl refl
                              | inr other ↦ kept (ground arith)
                            ]
                      ]
                ]
        ]
  ]

  pub delete-ResourceStep :
      (id j : ℕ) → ResourceStep db actor s (delete db crypto key id actor s).1 j
  unfolding delete ResourceRepository.delete
  delete-ResourceStep id j = elim (Exec-cases (load db crypto key id actor s)) [
    | inl (e, t, bad) ↦
        let same = load_read db crypto key s t id actor (err e) bad in
        same-ResourceStep _ j (ground (arith, same))
    | inr ((current, r), t, good) ↦
        let (same, acts, there, reach, own) = load_inv id current r t good in
        elim (Result-cases (ensure_resource_management_permission current)) [
          | inl (e, bad) ↦ same-ResourceStep _ j (ground arith)
          | inr (x, passed) ↦ elim (Result-cases (db.resources.delete s.resources id)) [
            | inl (e, bad) ↦ same-ResourceStep _ j (ground arith)
            | inr (rs, gone) ↦
                let at = laws.resources.delete_at s.resources id rs gone j in
                elim (Bool-cases (id == j)) [
                  | inl here ↦
                      removed current r acts
                        (reached-Manages current r reach (passed-IsManager current passed))
                        (ground (arith, own, ==_iff id j)) (ground arith)
                  | inr other ↦ kept (ground arith)
                ]
          ]
        ]
  ]
