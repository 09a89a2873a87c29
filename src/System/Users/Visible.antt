-- ===== src/System/Users/Visible.antt =====
-- What user_service.go shows of the users, and to whom.
use addp.Common.{
  ℕ, Bool, true, false, some, List, [], ◌∷◌, ok, err, ◌≡◌, ◌⊎◌, ◌==◌, if◌then◌else◌, ◌||◌, arith,
  inl, inr, All, All-imp, Bool-cases, Option-cases, ap, sym, refl, ◌∙◌,
}
use mathlib.Core.Path.{subst}
use addp.Common.Int.{ℤ}
use addp.System.Models.{
  super_admin, tenant_admin, is_super_admin, is_tenant_admin, User, same_tenant,
}
use addp.System.Store.{no_view_permission, Store, Database, IsDatabase, Bcrypt}
use addp.System.UserRepository
use addp.System.UserRepository.{in_tenant}
use addp.System.Users.{get_by_id, list, list_for, page_offset}

module _ {U T R L : Type 0} (db : Database U T R L) (bcrypt : Bcrypt) (s : Store U T R L) where
  -- Who may see whom.
  abbrev pub may_view : User → ℕ → User → Bool
  may_view me who u =
      is_super_admin me.user_type
      || (if is_tenant_admin me.user_type
          then same_tenant u.tenant_id me.tenant_id
          else u.id == who)

  -- For a user and a caller that the database finds, GetByID returns the user if the caller is a
  -- super administrator, an administrator of the user's tenant, or neither and the user himself;
  -- otherwise it refuses. The database stays as it was.
  pub get_user_lem :
      (id who : ℕ) (u me : User)
      → db.users.first s.users id ≡ ok u
      → db.users.first s.users who ≡ ok me
      → get_by_id db bcrypt id who s
        ≡ ((if may_view me who u then ok u else err no_view_permission), s)
  unfolding get_by_id
  get_user_lem id who u me found asking = ground arith

  -- Who is listed for whom.
  abbrev pub MayList : User → User → Type 0
  MayList me u =
      (db.users.at s.users u.id ≡ some u)
      × ((u ≡ me) ⊎ ((me.user_type ≡ tenant_admin) × (same_tenant u.tenant_id me.tenant_id ≡ true)))

  members_listed :
      (me : User) (t : ℕ) (us : List User)
      → me.user_type ≡ tenant_admin
      → me.tenant_id ≡ some t
      → All (λ u. (db.users.at s.users u.id ≡ some u) × (in_tenant t u.tenant_id ≡ true)) us
      → All (MayList me) us
  members_listed me t us kind mine =
      All-imp (λ u. (db.users.at s.users u.id ≡ some u) × (in_tenant t u.tenant_id ≡ true))
        (MayList me) (λ u h. (h.0, inr (kind, ground (arith, h.1)))) us

  list_for_super :
      (me : User) (o l : ℤ) (us : List User) (s' : Store U T R L)
      → is_super_admin me.user_type ≡ true
      → list_for db bcrypt me o l s ≡ (ok us, s')
      → (us ≡ []) × (s' ≡ s)
  unfolding list_for
  list_for_super me o l us s' kind h = ground arith

  list_for_plain :
      (me : User) (o l : ℤ) (us : List User) (s' : Store U T R L)
      → is_super_admin me.user_type ≡ false
      → is_tenant_admin me.user_type ≡ false
      → list_for db bcrypt me o l s ≡ (ok us, s')
      → (us ≡ me ∷ []) × (s' ≡ s)
  unfolding list_for
  list_for_plain me o l us s' kind kind' h = ground arith

  list_for_admin :
      (me : User) (o l : ℤ) (us : List User) (s' : Store U T R L)
      → is_tenant_admin me.user_type ≡ true
      → list_for db bcrypt me o l s ≡ (ok us, s')
      → (t : ℕ) × (me.tenant_id ≡ some t)
        × (db.users.find s.users (λ u. in_tenant t u.tenant_id) o l ≡ ok us)
        × (s' ≡ s)
  unfolding list_for UserRepository.list_by_tenant
  list_for_admin me o l us s' kind h = elim (Option-cases me.tenant_id) [
    | inl no_tenant ↦ absurd (ground arith)
    | inr (t, mine) ↦ (t, mine, ground arith, ground arith)
  ]

  list_for_sound :
      (laws : IsDatabase db) (o l : ℤ) (who : ℕ) (me : User) (us : List User) (s' : Store U T R L)
      → db.users.first s.users who ≡ ok me
      → list_for db bcrypt me o l s ≡ (ok us, s')
      → All (MayList me) us × (s' ≡ s) × (me.user_type ≡ super_admin → us ≡ [])
  list_for_sound laws o l who me us s' asking h = elim (Bool-cases (is_super_admin me.user_type)) [
    | inl root ↦
        let (nobody, same) = list_for_super me o l us s' root h in
        (subst (All (MayList me)) (sym nobody) tt, same, λ k. nobody)
    | inr other ↦ elim (Bool-cases (is_tenant_admin me.user_type)) [
      | inl admin ↦
          let (t, mine, found, same) = list_for_admin me o l us s' admin h in
          (
            members_listed me t us (ground arith) mine
                (laws.users.find_ok s.users (λ u. in_tenant t u.tenant_id) o l us found),
            same,
            λ k. absurd (ground arith),
          )
      | inr plain ↦
          let (only_me, same) = list_for_plain me o l us s' other plain h in
          let here = laws.users.first_ok s.users who me asking in
          let own = ap (db.users.at s.users) (laws.users.at_key s.users who me here) ∙ here in
          (
            subst (All (MayList me)) (sym only_me) ((own, inl refl), tt),
            same,
            λ k. absurd (ground arith),
          )
    ]
  ]

  -- A list that List returns holds stored users only, each of them the caller himself or, for a
  -- tenant administrator, a member of the caller's tenant; a super administrator gets none. The
  -- database stays as it was.
  -- The database meets its laws `IsDatabase`.
  pub list_users_sound :
      (laws : IsDatabase db) (page size : ℤ) (who : ℕ) (me : User) (us : List User)
      (s' : Store U T R L)
      → db.users.first s.users who ≡ ok me
      → list db bcrypt page size who s ≡ (ok us, s')
      → All (MayList me) us × (s' ≡ s) × (me.user_type ≡ super_admin → us ≡ [])
  unfolding list
  list_users_sound laws page size who me us s' asking h =
      list_for_sound laws (page_offset page size) size who me us s' asking (ground arith)
