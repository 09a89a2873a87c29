-- ===== src/System/Resources/Frame.antt =====
-- The tables that the methods of resource_service.go leave alone.
use addp.Common.{ℕ, List, Result, err, ◌≡◌, arith}
use addp.Cipher.{Crypto}
use addp.System.Models.{Resource, User, ResourceCreateRequest, ResourceUpdateRequest}
use addp.System.Store.{Error, Store, Database}
use addp.System.ResourceRepository
use addp.System.Resources.{create, update, delete, load}

module _ {U T R L : Type 0} (db : Database U T R L) where
  -- Users, tenants and logs are the same.
  pub record IsFramed (s s' : Store U T R L) : Type 0 where
    pub users : s'.users ≡ s.users
    pub tenants : s'.tenants ≡ s.tenants
    pub logs : s'.logs ≡ s.logs

  module _ {Byte : Type 0} (crypto : Crypto Byte) (key : List Byte) (s s' : Store U T R L) where
    pub load_read :
        (id actor : ℕ) (r : Result Error (User × Resource))
        → load db crypto key id actor s ≡ (r, s')
        → s' ≡ s
    unfolding load
    load_read id actor r h = ground arith

    pub create-IsFramed :
        (req : ResourceCreateRequest) (actor draw : ℕ)
        → IsFramed s (create db crypto key req actor draw s).1
    unfolding create ResourceRepository.create
    create-IsFramed req actor draw = record {
      users = ground arith;
      tenants = ground arith;
      logs = ground arith;
    }

    pub update-IsFramed :
        (id : ℕ) (req : ResourceUpdateRequest) (actor draw : ℕ)
        → IsFramed s (update db crypto key id req actor draw s).1
    unfolding update load ResourceRepository.update
    update-IsFramed id req actor draw = record {
      users = ground arith;
      tenants = ground arith;
      logs = ground arith;
    }

    pub delete-IsFramed : (id actor : ℕ) → IsFramed s (delete db crypto key id actor s).1
    unfolding delete load ResourceRepository.delete
    delete-IsFramed id actor = record {
      users = ground arith;
      tenants = ground arith;
      logs = ground arith;
    }

    module _ (e : Error) where
      pub create_err :
          (req : ResourceCreateRequest) (actor draw : ℕ)
          → create db crypto key req actor draw s ≡ (err e, s')
          → s' ≡ s
      unfolding create ResourceRepository.create
      create_err req actor draw h = ground arith

      pub update_err :
          (id : ℕ) (req : ResourceUpdateRequest) (actor draw : ℕ)
          → update db crypto key id req actor draw s ≡ (err e, s')
          → s' ≡ s
      unfolding update load ResourceRepository.update
      update_err id req actor draw h = ground arith

      pub delete_err : (id actor : ℕ) → delete db crypto key id actor s ≡ (err e, s') → s' ≡ s
      unfolding delete load ResourceRepository.delete
      delete_err id actor h = ground arith
