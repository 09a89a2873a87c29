-- ===== src/System/Examples/Safety.antt =====
-- The invariants of a run of requests.
use addp.Common.{ℕ, false, some, List, [], ◌∷◌, ◌≡◌, ◌≢◌, refl, arith}
use addp.Db.Model.{memory}
use addp.System.Models.{User, same_tenant}
use addp.System.Users
use addp.System.Tenants
use addp.System.Access.{IsAllowed, user_at}
use addp.System.Access.Invariant.{IsConsistent}
use addp.System.Access.Root.{HasRoot, WasRoot}
use addp.System.Requests.{
  Request, create_user, delete_user, delete_tenant, delete_resource, serve, run,
}
use addp.System.Requests.Safety.{run-IsConsistent, run-HasRoot, run-WasRoot, serve-isolated}
use addp.System.Requests.Ownership.{serve-other}
use addp.System.Requests.Allowed.{serve-IsAllowed}
use addp.System.Models.{Resource}
use addp.Common.{true}
use addp.System.Samples.{bob}
use addp.System.Samples.{
  ram, ram-IsDatabase, plain_bcrypt, plain_crypto, sample_key, State, sample, root, ann,
}
use addp.System.Examples.{sample-IsConsistent, sample-HasRoot, cal_request}

-- ann adds cal, root deletes ann's tenant, and ann tries to delete root
abbrev requests : List Request
requests = create_user cal_request 2 7 ∷ delete_tenant 1 1 ∷ delete_user 1 2 ∷ []

abbrev after : State
after = run ram plain_bcrypt plain_crypto sample_key requests sample

run-IsConsistent_example : IsConsistent ram after
run-IsConsistent_example =
    run-IsConsistent ram plain_bcrypt plain_crypto sample_key ram-IsDatabase requests sample
      sample-IsConsistent

run-HasRoot_example : HasRoot ram 1 after
run-HasRoot_example =
    run-HasRoot ram plain_bcrypt plain_crypto sample_key ram-IsDatabase requests sample 1
      sample-HasRoot

root_stays : user_at ram after 1 ≡ some root
unfolding run serve memory Users.create Users.delete Tenants.delete Tenants.delete_body
    Tenants.ensure_superadmin
root_stays = refl

run-WasRoot_example : WasRoot ram sample 1 root
run-WasRoot_example =
    run-WasRoot ram plain_bcrypt plain_crypto sample_key ram-IsDatabase requests sample 1 root
      root_stays refl

serve-isolated_example :
    ((serve ram plain_bcrypt plain_crypto sample_key (delete_user 3 2) sample).tenants
      ≡ sample.tenants)
    × ((j : ℕ) (u : User)
        → user_at ram sample j ≡ some u
        → j ≢ 2
        → same_tenant u.tenant_id ann.tenant_id ≡ false
        → user_at ram (serve ram plain_bcrypt plain_crypto sample_key (delete_user 3 2) sample) j
          ≡ some u)
unfolding memory
serve-isolated_example =
    serve-isolated ram plain_bcrypt plain_crypto sample_key ram-IsDatabase (delete_user 3 2) sample
      ann refl (ground arith)

-- ann's connection, and bob, who is of another tenant and no administrator
abbrev db_1 : Resource
db_1 = record {
  id = 1;
  name = "db";
  resource_type = "postgresql";
  connection_info = [];
  description = "";
  created_by = some 2;
  tenant_id = some 1;
  is_active = true;
}

abbrev owned : State
owned = record sample { resources = record { count = 1; row = λ i. some db_1 } }

serve-other_example :
    ram.resources.at
      (serve ram plain_bcrypt plain_crypto sample_key (delete_resource 1 3) owned).resources
      1
    ≡ some db_1
unfolding memory
serve-other_example =
    serve-other ram plain_bcrypt plain_crypto sample_key ram-IsDatabase owned 1 db_1 refl
      (delete_resource 1 3) bob refl refl

serve-IsAllowed_example :
    IsAllowed ram 2 owned
      (serve ram plain_bcrypt plain_crypto sample_key (delete_resource 1 2) owned)
serve-IsAllowed_example =
    serve-IsAllowed ram plain_bcrypt plain_crypto sample_key ram-IsDatabase (delete_resource 1 2)
      owned
