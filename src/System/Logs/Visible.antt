-- ===== src/System/Logs/Visible.antt =====
-- Which audit entries a user is shown, and under which tenant the logger files an entry.
use addp.Common.{
  ℕ, true, Option, some, List, [], ok, ◌≡◌, ◌≢◌, ==_iff, str_eq, eq_iff, ◌||◌, ◌&&◌, arith, inl,
  inr, All, All-imp, Bool-cases, Option-cases,
}
use mathlib.Core.Path.{subst}
use Prim.Native.String.{◌++◌}
use addp.Common.Int.{ℤ}
use addp.Common.Outcome.{Result-cases}
use addp.System.Models.{is_super_admin, User, AuditLog, same_tenant}
use addp.System.Store.{Store, Database, IsDatabase}
use addp.System.UserRepository.{in_tenant}
use addp.System.LogRepository
use addp.System.LogRepository.{of_user}
use addp.System.Users.{page_offset}
use addp.System.Logs.{Logged, list, logs_for, log_entry, log_request}

module _ {U T R L : Type 0} (db : Database U T R L) (laws : IsDatabase db) where
  -- an entry that is shown to a user who asked for the entries of `who`
  pub record IsShown (s : Store U T R L) (me : User) (who : Option ℕ) (l : AuditLog) : Type 0 where
    pub stored : db.logs.at s.logs l.id ≡ some l
    pub reachable : (is_super_admin me.user_type || same_tenant me.tenant_id l.tenant_id) ≡ true
    pub asked : (u : ℕ) → who ≡ some u → l.user_id ≡ some u

  of_user_iff :
      (who : Option ℕ) (l : AuditLog)
      → of_user who l ≡ true
      → (u : ℕ) → who ≡ some u
      → l.user_id ≡ some u
  of_user_iff who l h u e = elim (Option-cases l.user_id) [
    | inl nobody ↦ ground arith
    | inr (v, by) ↦ ground (arith, ==_iff u v)
  ]

  logs_for_sound :
      (s s' : Store U T R L) (me : User) (o l : ℤ) (who : Option ℕ) (rows : List AuditLog)
      → logs_for db me o l who s ≡ (ok rows, s')
      → All (IsShown s me who) rows × (s' ≡ s)
  unfolding logs_for LogRepository.list LogRepository.list_by_tenant
  logs_for_sound s s' me o l who rows h = elim (Bool-cases (is_super_admin me.user_type)) [
    | inl root ↦ (
      All-imp _ (IsShown s me who)
          (λ r p. record { stored = p.0; reachable = ground arith; asked = of_user_iff who r p.1 })
          rows (laws.logs.find_ok s.logs (of_user who) o l rows (ground arith)),
      ground arith,
    )
    | inr other ↦ elim (Option-cases me.tenant_id) [
      | inl no_tenant ↦
          let empty : [] ≡ rows = ground arith in
          (subst (All (IsShown s me who)) empty tt, ground arith)
      | inr (t, mine) ↦ (
        All-imp
            (λ r.
              (db.logs.at s.logs r.id ≡ some r)
              × ((in_tenant t r.tenant_id && of_user who r) ≡ true))
            (IsShown s me who)
            (λ r p. record {
              stored = p.0;
              reachable = ground (arith, p.1);
              asked = of_user_iff who r (ground (arith, p.1));
            })
            rows
            (laws.logs.find_ok s.logs (λ r. in_tenant t r.tenant_id && of_user who r) o l rows
              (ground arith)),
        ground arith,
      )
    ]
  ]

  -- A list of audit entries that List returns holds stored entries only, each of them of the
  -- caller's tenant unless the caller is a super administrator, and each of the user that the
  -- caller asked for, if one was asked for. The database stays as it was.
  -- The database meets its laws `IsDatabase`.
  pub list_logs_sound :
      (s s' : Store U T R L) (me : User) (page size : ℤ) (who : Option ℕ) (current : ℕ)
      (rows : List AuditLog)
      → db.users.first s.users current ≡ ok me
      → list db page size who current s ≡ (ok rows, s')
      → All (IsShown s me who) rows × (s' ≡ s)
  unfolding list
  list_logs_sound s s' me page size who current rows asking h =
      logs_for_sound s s' me (page_offset page size) size who rows (ground arith)

  -- An entry that the audit log holds after LoggerMiddleware and did not hold before is one of a
  -- request that is no GET: it has the request's method and path as its action, the request's user
  -- id, and the tenant that the database has for that user.
  -- The database meets its laws `IsDatabase`.
  pub log_request_lem :
      (c : Logged) (s : Store U T R L) (l : AuditLog) (i : ℕ)
      → db.logs.at (log_request db c s).logs i ≡ some l
      → db.logs.at s.logs i ≢ some l
      → (c.method ≢ "GET")
        × (l.user_id ≡ c.user_id)
        × (l.action ≡ c.method ++ " " ++ c.path)
        × ((u : ℕ) (me : User)
            → c.user_id ≡ some u
            → db.users.first s.users u ≡ ok me
            → l.tenant_id ≡ me.tenant_id)
  unfolding log_request log_entry LogRepository.create
  log_request_lem c s l i there new = elim (Bool-cases (str_eq c.method "GET")) [
    | inl get ↦ absurd (new (ground arith))
    | inr other ↦ elim (Result-cases (db.logs.create s.logs (log_entry db c s))) [
      | inl (e, bad) ↦ absurd (new (ground arith))
      | inr ((row, ls), made) ↦
          let rows = laws.logs.create_at s.logs (log_entry db c s) row ls made i in
          let here : row ≡ l = ground arith in
          let built = (laws.logs.create_row s.logs (log_entry db c s) row ls made).1 in
          (
            λ e. ground (arith, eq_iff c.method "GET"),
            ground (arith, built),
            ground (arith, built),
            λ u me e f. ground (arith, built),
          )
    ]
  ]
