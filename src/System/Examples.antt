-- ===== src/System/Examples.antt =====
-- The theorems on the System service at concrete inputs: the database in memory with the sample
-- rows, and the stand-ins for bcrypt and AES.
mod Safety
mod Storage
mod Users
mod Sessions
mod Resources
use addp.Common.{
  ℕ, String, Bool, true, false, Option, none, some, List, [], ◌∷◌, ok, err, ◌≡◌, refl, arith, ◌==◌,
  ==_iff, inl, inr, Bool-cases,
}
use addp.Db.Model.{memory}
use addp.System.Models.{super_admin, UserCreateRequest, user, User}
use addp.System.Access.Invariant.{IsSound, IsConsistent}
use addp.System.Access.Root.{HasRoot}
use addp.System.Samples.{ram, State, sample, root, ann, bob}

pub sample-IsConsistent : IsConsistent ram sample
unfolding memory
sample-IsConsistent = record {
  at_id = λ i u h. record {
    flag = ground arith;
    admin_has_tenant = λ e. ground arith;
    root_has_none = λ e. ground arith;
    tenant_exists = λ t e. ground arith;
  };
}

pub sample-HasRoot : HasRoot ram 1 sample
unfolding memory
sample-HasRoot = record { row = root; stored = refl; name = refl; kind = refl; no_tenant = refl }

abbrev pub cal_request : UserCreateRequest
cal_request = record {
  username = "cal";
  email = "cal@example.com";
  password = "secret3";
  full_name = "Cal";
  user_type = user;
}
