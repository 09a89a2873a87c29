-- ===== src/System/Access/Root.antt =====
-- The account SuperAdmin and the super administrators under the steps of the access control.
use addp.Common.{ℕ, none, some, ◌≡◌, ◌==◌, ==_iff, arith, inl, inr, Bool-cases, refl, ◌∙◌}
use addp.Db.Effects.{drop_if-eq-some}
use addp.System.Models.{super_admin, user, User}
use addp.System.Store.{Store, Database}
use addp.System.UserRepository.{in_tenant}
use addp.System.Access.{
  user_at, MayAdd, self_registered, by_admin, Step, idle, add_user, edit_user, remove_user,
  add_tenant, edit_tenant, remove_tenant, Steps, here, next,
}

module _ {U T R L : Type 0} (db : Database U T R L) where
  -- The row of the account SuperAdmin under its key.
  pub record HasRoot (i : ℕ) (s : Store U T R L) : Type 0 where
    pub row : User
    pub stored : user_at db s i ≡ some row
    pub name : row.username ≡ "SuperAdmin"
    pub kind : row.user_type ≡ super_admin
    pub no_tenant : row.tenant_id ≡ none

  kept_root :
      {i : ℕ} {s s' : Store U T R L} (h : HasRoot i s) → user_at db s' i ≡ some h.row → HasRoot i s'
  kept_root h e = record {
    row = h.row;
    stored = e;
    name = h.name;
    kind = h.kind;
    no_tenant = h.no_tenant;
  }

  pub Step-HasRoot :
      {i : ℕ} {who : ℕ} {s s' : Store U T R L} → HasRoot i s → Step db who s s' → HasRoot i s'
  Step-HasRoot {i} h (idle us ts) = kept_root h (rw us h.stored)
  Step-HasRoot {i} h (add_user u ins may ts) =
      kept_root h (ground (arith, ins.rows i, ins.fresh, h.stored, ==_iff u.id i))
  Step-HasRoot {i} h (edit_user actor old u sav may ts) = elim (Bool-cases (u.id == i)) [
    | inl it ↦
        let same : old ≡ h.row = ground (arith, sav.was, sav.same_key, h.stored, ==_iff u.id i) in
        record {
          row = u;
          stored = ground (arith, sav.rows i);
          name = ground (arith, may.kept_username, h.name);
          kind = ground (arith, may.type_change, h.kind, h.no_tenant);
          no_tenant = ground (arith, may.kept_tenant, h.no_tenant);
        }
    | inr other ↦ kept_root h (ground (arith, sav.rows i, h.stored))
  ]
  Step-HasRoot {i} h (remove_user actor old del may ts) =
      kept_root h
        (ground (arith, del.rows i, del.was, h.stored, h.name, may.not_superadmin, ==_iff old.id i))
  Step-HasRoot {i} h (add_tenant actor t admin acts sup tins uins a b c) =
      kept_root h (ground (arith, uins.rows i, uins.fresh, h.stored, ==_iff admin.id i))
  Step-HasRoot {i} h (edit_tenant actor old t acts sup sav us) = kept_root h (rw us h.stored)
  Step-HasRoot {i} h (remove_tenant actor old acts sup del rows) =
      kept_root h (ground (arith, rows i, h.stored, h.no_tenant))

  pub Steps-HasRoot : {i : ℕ} {s s' : Store U T R L} → HasRoot i s → Steps db s s' → HasRoot i s'
  Steps-HasRoot h here = h
  Steps-HasRoot h (next who r st) = Step-HasRoot (Steps-HasRoot h r) st

  -- The super administrators of a later state were super administrators of the same name before.
  pub record WasRoot (s : Store U T R L) (i : ℕ) (u : User) : Type 0 where
    pub row : User
    pub stored : user_at db s i ≡ some row
    pub kind : row.user_type ≡ super_admin
    pub name : row.username ≡ u.username

  was_root :
      {s : Store U T R L} {i : ℕ} {u : User}
      → u.user_type ≡ super_admin
      → user_at db s i ≡ some u
      → WasRoot s i u
  was_root {u} k e = record { row = u; stored = e; kind = k; name = refl }

  added_not_root : {who : ℕ} {s : Store U T R L} {u : User} → MayAdd db who s u → u.user_type ≡ user
  added_not_root (self_registered open_to_all a b c) = a
  added_not_root (by_admin admin acts a b c d) = b

  pub Step-WasRoot :
      {who : ℕ} {s s' : Store U T R L}
      → Step db who s s'
      → (i : ℕ) (u : User) → user_at db s' i ≡ some u
      → u.user_type ≡ super_admin
      → WasRoot s i u
  Step-WasRoot (idle us ts) i u e k = was_root k (rw us at e)
  Step-WasRoot (add_user v ins may ts) i u e k =
      was_root k (ground (arith, ins.rows i, added_not_root may))
  Step-WasRoot (edit_user actor old v sav may ts) i u e k = elim (Bool-cases (v.id == i)) [
    | inl it ↦
        let same : u ≡ v = ground (arith, sav.rows i) in
        record {
          row = old;
          stored = ground (arith, sav.was, sav.same_key, ==_iff v.id i);
          kind = ground (arith, may.type_change);
          name = ground (arith, may.kept_username);
        }
    | inr other ↦ was_root k (ground (arith, sav.rows i))
  ]
  Step-WasRoot (remove_user actor old del may ts) i u e k = was_root k (ground (arith, del.rows i))
  Step-WasRoot (add_tenant actor t admin acts sup tins uins a b c) i u e k =
      was_root k (ground (arith, uins.rows i))
  Step-WasRoot (edit_tenant actor old t acts sup sav us) i u e k = was_root k (rw us at e)
  Step-WasRoot {s} (remove_tenant actor old acts sup del rows) i u e k =
      was_root k
        (drop_if-eq-some (λ v. in_tenant old.id v.tenant_id) (user_at db s i) (rw (rows i) at e)).0

  pub Steps-WasRoot :
      {s s' : Store U T R L}
      → Steps db s s'
      → (i : ℕ) (u : User) → user_at db s' i ≡ some u
      → u.user_type ≡ super_admin
      → WasRoot s i u
  Steps-WasRoot here i u e k = was_root k e
  Steps-WasRoot (next who r st) i u e k =
      let mid = Step-WasRoot st i u e k in
      let first = Steps-WasRoot r i mid.row mid.stored mid.kind in
      record {
        row = first.row;
        stored = first.stored;
        kind = first.kind;
        name = first.name ∙ mid.name;
      }
