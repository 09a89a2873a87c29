-- ===== src/System/Resources/Isolation.antt =====
-- Who can change which resource.
use addp.Common.{ℕ, List, true, false, some, ok, err, ◌≡◌, arith, inl, inr, ==_iff, ap, ◌∙◌}
use addp.Common.Outcome.{Exec-cases, Result-cases}
use addp.Cipher.{Crypto}
use addp.System.Models.{User, Resource, ResourceCreateRequest, ResourceUpdateRequest}
use addp.System.Store.{Store, Database, IsDatabase}
use addp.System.ResourceRepository
use addp.System.Resources.{
  create, update, delete, load, new_info, new_resource, updated_resource, authorize_resource_access,
  ensure_resource_management_permission, encrypt_sensitive_fields,
}
use addp.System.Resources.Frame.{load_read}
use addp.System.Resources.Access.{may_reach, may_manage}

module _ {U T R L : Type 0} (db : Database U T R L) {Byte : Type 0} (crypto : Crypto Byte)
    (key : List Byte) (laws : IsDatabase db) (s : Store U T R L) (actor : ℕ) (me : User)
    (acts : db.users.at s.users actor ≡ some me) where
  load_inv :
      (id : ℕ) (current : User) (r : Resource) (t : Store U T R L)
      → load db crypto key id actor s ≡ (ok (current, r), t)
      → (t ≡ s)
        × (current ≡ me)
        × (db.resources.at s.resources id ≡ some r)
        × (may_reach me r ≡ true)
  unfolding load authorize_resource_access
  load_inv id current r t h = elim (Result-cases (db.users.first s.users actor)) [
    | inl (e, bad) ↦ absurd (ground arith)
    | inr (u, asking) ↦ elim (Result-cases (db.resources.first s.resources id)) [
      | inl (e, bad) ↦ absurd (ground arith)
      | inr (row, found) ↦
          let known = laws.users.first_ok s.users actor u asking in
          let there = laws.resources.first_ok s.resources id row found in
          (ground arith, ground arith, ground arith, ground arith)
    ]
  ]

  module _ (j : ℕ) (old : Resource) (there : db.resources.at s.resources j ≡ some old)
      (others : may_manage me old ≡ false) where
    pub create-other :
        (req : ResourceCreateRequest) (draw : ℕ)
        → db.resources.at (create db crypto key req actor draw s).1.resources j ≡ some old
    unfolding create ResourceRepository.create
    create-other req draw = elim (Result-cases (db.users.first s.users actor)) [
      | inl (e, bad) ↦ ground arith
      | inr (u, asking) ↦
          elim (Result-cases (encrypt_sensitive_fields crypto key req.connection_info draw)) [
            | inl (e, bad) ↦ ground arith
            | inr (info, made) ↦
                elim (Result-cases
                  (db.resources.create s.resources (new_resource req u actor info))) [
                    | inl (e, bad) ↦ ground arith
                    | inr ((row, rs), inserted) ↦ ground (
                      arith,
                      laws.resources.create_at s.resources (new_resource req u actor info) row rs
                          inserted j,
                      (laws.resources.create_row s.resources (new_resource req u actor info) row rs
                          inserted).2,
                      ==_iff row.id j,
                    )
                  ]
          ]
    ]

    pub update-other :
        (id : ℕ) (req : ResourceUpdateRequest) (draw : ℕ)
        → db.resources.at (update db crypto key id req actor draw s).1.resources j ≡ some old
    unfolding update ResourceRepository.update ensure_resource_management_permission
    update-other id req draw = elim (Exec-cases (load db crypto key id actor s)) [
      | inl (e, t, bad) ↦
          let same = load_read db crypto key s t id actor (err e) bad in ground (arith, same)
      | inr ((current, r), t, good) ↦
          let (same, mine, found, reach) = load_inv id current r t good in
          elim (Result-cases (new_info db crypto key req.connection_info draw r.connection_info)) [
            | inl (e, bad) ↦ ground arith
            | inr (info, made) ↦
                let own : r.id ≡ id = laws.resources.at_key s.resources id r found in
                elim (Result-cases (db.resources.save s.resources (updated_resource req r info))) [
                  | inl (e, bad) ↦ ground arith
                  | inr (rs, saved) ↦ ground (
                    arith,
                    laws.resources.save_at s.resources (updated_resource req r info) r rs
                        (ap (db.resources.at s.resources) own ∙ found) saved j,
                    ==_iff r.id j,
                  )
                ]
          ]
    ]

    pub delete-other :
        (id : ℕ) → db.resources.at (delete db crypto key id actor s).1.resources j ≡ some old
    unfolding delete ResourceRepository.delete ensure_resource_management_permission
    delete-other id = elim (Exec-cases (load db crypto key id actor s)) [
      | inl (e, t, bad) ↦
          let same = load_read db crypto key s t id actor (err e) bad in ground (arith, same)
      | inr ((current, r), t, good) ↦
          let (same, mine, found, reach) = load_inv id current r t good in
          elim (Result-cases (db.resources.delete s.resources id)) [
            | inl (e, bad) ↦ ground arith
            | inr (rs, gone) ↦
                ground (arith, laws.resources.delete_at s.resources id rs gone j, ==_iff id j)
          ]
    ]
