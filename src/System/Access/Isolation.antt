-- ===== src/System/Access/Isolation.antt =====
-- The users and tenants that a caller who is no super administrator reaches by one step.
use addp.Common.{ℕ, false, some, ◌≡◌, ◌≢◌, ==_iff, arith}
use addp.System.Models.{super_admin, User, same_tenant}
use addp.System.Store.{Store, Database}
use addp.System.Access.{
  user_at, Step, idle, add_user, edit_user, remove_user, add_tenant, edit_tenant, remove_tenant,
}

module _ {U T R L : Type 0} (db : Database U T R L) where
  module _ {who : ℕ} {s s' : Store U T R L} (caller : User) (there : user_at db s who ≡ some caller)
      (plain : caller.user_type ≢ super_admin) where
    pub Step-isolated :
        Step db who s s'
        → (j : ℕ) (u : User) → user_at db s j ≡ some u
        → j ≢ who
        → same_tenant u.tenant_id caller.tenant_id ≡ false
        → user_at db s' j ≡ some u
    Step-isolated (idle us ts) j u e ne other = rw us e
    Step-isolated (add_user v ins may ts) j u e ne other =
        ground (arith, ins.rows j, ins.fresh, ==_iff v.id j)
    Step-isolated (edit_user actor old v sav may ts) j u e ne other =
        ground (arith, sav.rows j, sav.was, sav.same_key, may.entitled, may.acts, ==_iff v.id j)
    Step-isolated (remove_user actor old del may ts) j u e ne other =
        ground (arith, del.rows j, del.was, may.entitled, may.acts, ==_iff old.id j)
    Step-isolated (add_tenant actor t admin acts sup tins uins a b c) j u e ne other = ground arith
    Step-isolated (edit_tenant actor old t acts sup sav us) j u e ne other = ground arith
    Step-isolated (remove_tenant actor old acts sup del rows) j u e ne other = ground arith

    -- a row that the step adds or changes keeps its tenant, or has the caller's tenant, or none
    pub Step-tenants : Step db who s s' → s'.tenants ≡ s.tenants
    Step-tenants (idle us ts) = ts
    Step-tenants (add_user v ins may ts) = ts
    Step-tenants (edit_user actor old v sav may ts) = ts
    Step-tenants (remove_user actor old del may ts) = ts
    Step-tenants (add_tenant actor t admin acts sup tins uins a b c) = absurd (ground arith)
    Step-tenants (edit_tenant actor old t acts sup sav us) = absurd (ground arith)
    Step-tenants (remove_tenant actor old acts sup del rows) = absurd (ground arith)
