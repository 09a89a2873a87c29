-- ===== src/System/Access/Invariant.antt =====
-- The users and tenants of a state, and their consistency, under the steps of the access control.
use addp.Common.{ℕ, false, none, some, ◌≡◌, ◌≢◌, ◌==◌, ==_iff, arith, inl, inr, Bool-cases}
use addp.Db.Effects.{IsDeleted, drop_if-eq-some}
use addp.System.UserRepository.{in_tenant}
use addp.System.Models.{super_admin, tenant_admin, is_super_admin, User, Tenant}
use addp.System.Store.{Store, Database}
use addp.System.Access.{
  user_at, tenant_at, MayAdd, self_registered, by_admin, MayEdit, Step, idle, add_user, edit_user,
  remove_user, add_tenant, edit_tenant, remove_tenant, Steps, here, next,
}

module _ {U T R L : Type 0} (db : Database U T R L) where
  -- What holds of a stored user: the legacy flag agrees with the type, an administrator has a
  -- tenant, a super administrator has none, and the tenant that a user names exists.
  pub record IsSound (s : Store U T R L) (u : User) : Type 0 where
    pub flag : u.is_superuser ≡ is_super_admin u.user_type
    pub admin_has_tenant : u.user_type ≡ tenant_admin → u.tenant_id ≢ none
    pub root_has_none : u.user_type ≡ super_admin → u.tenant_id ≡ none
    pub tenant_exists : (t : ℕ) → u.tenant_id ≡ some t → tenant_at db s t ≢ none

  pub record IsConsistent (s : Store U T R L) : Type 0 where
    pub at_id : (i : ℕ) (u : User) → user_at db s i ≡ some u → IsSound s u

  -- a user of a step that leaves the tenants, or adds to them
  IsSound-mono :
      {s s' : Store U T R L} {u : User}
      → ((t : ℕ) → tenant_at db s t ≢ none → tenant_at db s' t ≢ none)
      → IsSound s u
      → IsSound s' u
  IsSound-mono keep h = record {
    flag = h.flag;
    admin_has_tenant = h.admin_has_tenant;
    root_has_none = h.root_has_none;
    tenant_exists = λ t e. keep t (h.tenant_exists t e);
  }

  added-IsSound :
      {who : ℕ} {s s' : Store U T R L} {u : User}
      → IsConsistent s
      → s'.tenants ≡ s.tenants
      → MayAdd db who s u
      → IsSound s' u
  added-IsSound h same (self_registered open_to_all a b c) = record {
    flag = ground arith;
    admin_has_tenant = λ e. ground arith;
    root_has_none = λ e. c;
    tenant_exists = λ t e. ground arith;
  }
  added-IsSound {who} h same (by_admin admin acts a b c d) = record {
    flag = ground arith;
    admin_has_tenant = λ e. ground arith;
    root_has_none = λ e. ground arith;
    tenant_exists = λ t e. rw same ((h.at_id who admin acts).tenant_exists t (ground arith));
  }

  edited-IsSound :
      {who : ℕ} {s s' : Store U T R L} (actor old u : User)
      → IsSound s old
      → s'.tenants ≡ s.tenants
      → MayEdit db who s actor old u
      → IsSound s' u
  edited-IsSound actor old u h same may = record {
    flag = ground (arith, may.type_change, h.flag);
    admin_has_tenant = λ e. ground (arith, may.type_change, may.kept_tenant, h.admin_has_tenant);
    root_has_none = λ e. ground (arith, may.type_change, may.kept_tenant, h.root_has_none);
    tenant_exists = λ t e. rw same (h.tenant_exists t (ground (arith, may.kept_tenant)));
  }

  -- a user who is left when a tenant is removed
  removed-IsSound :
      {s s' : Store U T R L} {old : Tenant}
      → IsConsistent s
      → (v : User) (i : ℕ) → user_at db s i ≡ some v
      → in_tenant old.id v.tenant_id ≡ false
      → IsDeleted db.tenants (λ x. x.id) s.tenants old s'.tenants
      → IsSound s' v
  removed-IsSound {s} {old} h v i was outside del = record {
    flag = (h.at_id i v was).flag;
    admin_has_tenant = (h.at_id i v was).admin_has_tenant;
    root_has_none = (h.at_id i v was).root_has_none;
    tenant_exists = λ t e.
        ground (
          arith,
          (h.at_id i v was).tenant_exists t e,
          del.rows t,
          ==_iff old.id t,
          ==_iff t old.id,
        );
  }

  pub Step-IsConsistent :
      {who : ℕ} {s s' : Store U T R L} → IsConsistent s → Step db who s s' → IsConsistent s'
  Step-IsConsistent {s} {s'} h (idle us ts) = record {
    at_id = λ i u e. IsSound-mono (λ t k. rw ts k) (h.at_id i u (rw us at e));
  }
  Step-IsConsistent {s} {s'} h (add_user u ins may ts) = record {
    at_id = λ i v e. elim (Bool-cases (u.id == i)) [
      | inl new ↦ let same : v ≡ u = ground (arith, ins.rows i) in rw same (added-IsSound h ts may)
      | inr old ↦ IsSound-mono (λ t k. rw ts k) (h.at_id i v (ground (arith, ins.rows i)))
    ];
  }
  Step-IsConsistent {s} {s'} h (edit_user actor old u sav may ts) = record {
    at_id = λ i v e. elim (Bool-cases (u.id == i)) [
      | inl new ↦
          let same : v ≡ u = ground (arith, sav.rows i) in
          rw same (edited-IsSound actor old u (h.at_id old.id old sav.was) ts may)
      | inr other ↦ IsSound-mono (λ t k. rw ts k) (h.at_id i v (ground (arith, sav.rows i)))
    ];
  }
  Step-IsConsistent {s} {s'} h (remove_user actor old del may ts) = record {
    at_id = λ i v e. IsSound-mono (λ t k. rw ts k) (h.at_id i v (ground (arith, del.rows i)));
  }
  Step-IsConsistent {s} {s'} h (add_tenant actor t admin acts sup tins uins a b c) = record {
    at_id = λ i v e. elim (Bool-cases (admin.id == i)) [
      | inl new ↦
          let same : v ≡ admin = ground (arith, uins.rows i) in
          record {
            flag = ground arith;
            admin_has_tenant = λ q. ground arith;
            root_has_none = λ q. ground arith;
            tenant_exists = λ k q. ground (arith, tins.rows k, ==_iff t.id k);
          }
      | inr old ↦
          IsSound-mono (λ k q. ground (arith, tins.rows k, ==_iff t.id k))
            (h.at_id i v (ground (arith, uins.rows i)))
    ];
  }
  Step-IsConsistent {s} {s'} h (edit_tenant actor old t acts sup sav us) = record {
    at_id = λ i v e. IsSound-mono (λ k q. ground (arith, sav.rows k)) (h.at_id i v (rw us at e));
  }
  Step-IsConsistent {s} {s'} h (remove_tenant actor old acts sup del rows) = record {
    at_id = λ i v e.
        let (was, outside) =
          drop_if-eq-some (λ u. in_tenant old.id u.tenant_id) (user_at db s i) (rw (rows i) at e) in
        removed-IsSound h v i was outside del;
  }

  -- Every state that is reached from a consistent one by steps of the service is consistent.
  pub Steps-IsConsistent : {s s' : Store U T R L} → IsConsistent s → Steps db s s' → IsConsistent s'
  Steps-IsConsistent h here = h
  Steps-IsConsistent h (next who r st) = Step-IsConsistent (Steps-IsConsistent h r) st
