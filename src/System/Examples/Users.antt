-- ===== src/System/Examples/Users.antt =====
-- The theorems on users and tenants, at the sample rows.
use addp.Common.{true, [], ◌∷◌, ok, err, All, ◌≡◌, ◌↔◌, refl, if◌then◌else◌}
use addp.Common.Int.{pos, wrap_64, ◌*ℤ◌, ◌-ℤ◌}
use addp.Db.Model.{memory}
use addp.System.Models.{User, Tenant, TenantCreateRequest, super_admin}
use addp.System.Store.{no_view_permission}
use addp.System.UserRepository
use addp.System.Users.{
  get_by_id, list, list_for, page_offset, register, registered_user, authenticate,
}
use addp.System.Users.Visible.{may_view, MayList, get_user_lem, list_users_sound}
use addp.System.Users.Login.{authenticate_iff, authenticate-register}
use addp.System.TenantRepository
use addp.System.Tenants.{ensure_superadmin, create_body, delete_body}
use addp.System.Tenants as T
use addp.System.Tenants.Inversion.{
  Superadmin, Created, Removed, create_tenant_inv, delete_tenant_inv,
}
use addp.System.Samples.{
  ram, ram-IsDatabase, plain_bcrypt, plain_bcrypt-IsBcrypt, State, sample, ann, bob,
}
use addp.System.Examples.{cal_request}

admin : ram.users.first sample.users 2 ≡ ok ann
unfolding memory
admin = refl

other : ram.users.first sample.users 3 ≡ ok bob
unfolding memory
other = refl

get_user_lem_example : get_by_id ram plain_bcrypt 3 2 sample ≡ (
  (if may_view ram plain_bcrypt sample ann 2 bob then ok bob else err no_view_permission),
  sample,
)
get_user_lem_example = get_user_lem ram plain_bcrypt sample 3 2 bob ann other admin

listed : list ram plain_bcrypt (pos 1) (pos 10) 2 sample ≡ (ok (ann ∷ []), sample)
unfolding list list_for memory page_offset wrap_64 ◌*ℤ◌ ◌-ℤ◌
listed = refl

list_users_sound_example :
    All (MayList ram plain_bcrypt sample ann) (ann ∷ [])
    × (sample ≡ sample)
    × (ann.user_type ≡ super_admin → ann ∷ [] ≡ [])
list_users_sound_example =
    list_users_sound ram plain_bcrypt sample ram-IsDatabase (pos 1) (pos 10) 2 ann (ann ∷ []) sample
      admin listed

authenticate_iff_example :
    (authenticate ram plain_bcrypt "ann" "secret1" sample ≡ (ok ann, sample)) ↔ (
      (UserRepository.get_by_username ram "ann" sample ≡ ok ann)
      × (plain_bcrypt.compare ann.password_hash "secret1" ≡ true)
      × (ann.is_active ≡ true))
authenticate_iff_example = authenticate_iff ram plain_bcrypt "ann" "secret1" ann sample

abbrev cal : User
cal = record (registered_user cal_request "secret3") { id = 4 }

abbrev joined : State
joined = (register ram plain_bcrypt cal_request 5 sample).1

registered : register ram plain_bcrypt cal_request 5 sample ≡ (ok cal, joined)
unfolding register memory
registered = refl

found : UserRepository.get_by_username ram "cal" joined ≡ ok cal
unfolding register memory UserRepository.get_by_username
found = refl

authenticate-register_example :
    (cal ≡ cal) × (authenticate ram plain_bcrypt "cal" "secret3" joined ≡ (ok cal, joined))
authenticate-register_example =
    authenticate-register ram plain_bcrypt ram-IsDatabase plain_bcrypt-IsBcrypt cal_request 5 cal
      cal sample joined registered found

abbrev tenant_request : TenantCreateRequest
tenant_request = record {
  name = "three";
  description = "";
  admin_username = "dan";
  admin_password = "secret4";
  admin_email = "dan@example.com";
  admin_full_name = "Dan";
}

abbrev third : Tenant
third = record { id = 3; name = "three"; description = ""; is_active = true }

abbrev grown : State
grown = (T.create ram plain_bcrypt tenant_request 1 5 sample).1

tenant_created : T.create ram plain_bcrypt tenant_request 1 5 sample ≡ (ok third, grown)
unfolding T.create ensure_superadmin create_body TenantRepository.get_by_name memory
tenant_created = refl

create_tenant_inv_example :
    Superadmin ram plain_bcrypt ram-IsDatabase sample grown 1
    × Created ram plain_bcrypt ram-IsDatabase sample grown tenant_request third
create_tenant_inv_example =
    create_tenant_inv ram plain_bcrypt ram-IsDatabase sample grown tenant_request 1 5 third
      tenant_created

abbrev shrunk : State
shrunk = (T.delete ram plain_bcrypt 1 1 sample).1

tenant_deleted : T.delete ram plain_bcrypt 1 1 sample ≡ (ok tt, shrunk)
unfolding T.delete ensure_superadmin delete_body memory
tenant_deleted = refl

delete_tenant_inv_example :
    Superadmin ram plain_bcrypt ram-IsDatabase sample shrunk 1
    × ((old : Tenant) × (old.id ≡ 1) × Removed ram plain_bcrypt ram-IsDatabase sample shrunk old)
delete_tenant_inv_example =
    delete_tenant_inv ram plain_bcrypt ram-IsDatabase sample shrunk 1 1 tenant_deleted
