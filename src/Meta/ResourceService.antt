-- ===== src/Meta/ResourceService.antt =====
-- meta/backend/internal/service/resource_service.go. The system service is reached through a
-- client (common/client/system.go), with an internal key or with the user's token.
use addp.Common.{
  ℕ, ◌≤◌, ◌-◌, String, Bool, true, false, not, ◌&&◌, ◌||◌, Option, none, some, List, [], ◌∷◌, map,
  All, Result, ok, err, ◌≡◌, arith, ◌==◌, ltb, if◌then◌else◌, inl, inr, Option-cases,
}
use mathlib.Core.Path.{subst}
use addp.Common.Int.{ℤ, pos, ◌-ℤ◌}
use addp.Common.Outcome.{Result-cases}
use addp.Db.{DbError, not_found, failed}
use addp.Meta.Models.{Resource, MetaResource, MetaNode, ScanStatus, unscanned, scanning, scanned}
use addp.Meta.Store.{Forest, IsForest, or_zero}
use addp.Meta.Connection.{one_of}

-- SystemClient: GetResource and ListResources("", tenant); an error of the call is not read
pub record SystemClient : Type 0 where
  pub get_resource : ℕ → Option Resource
  pub list_resources : ℕ → Option (List Resource)

pub data LookupError : Type 0 where
  system_unreachable access_denied : LookupError
  database : DbError → LookupError

module _ (to_lower : String → String) where
  unfoldable pub is_scannable : String → Bool
  is_scannable resource_type = one_of (to_lower resource_type) (
      "postgresql" ∷ "postgres" ∷ "mysql" ∷ "object_storage" ∷ "object-storage" ∷ "s3" ∷ "minio"
      ∷ "oss" ∷ [])

  -- tenant 0 stands for every tenant
  abbrev pub of_tenant : ℕ → Resource → Bool
  of_tenant tenant_id r = not (ltb 0 tenant_id && not (r.tenant_id == tenant_id))

  unfoldable pub select_resources : ℕ → List Resource → List Resource
  unfolding is_scannable
  select_resources tenant_id [] = []
  select_resources tenant_id (r ∷ rs) =
      let rest = select_resources tenant_id rs in
      if not r.is_active
      then rest
      else if is_scannable r.resource_type && of_tenant tenant_id r
      then r ∷ rest
      else rest

  -- GetResourcesByTenant: over the client if there is an internal key, else from the table itself,
  -- with `query` for its statement
  unfoldable pub get_resources_by_tenant :
      Option SystemClient
      → (ℕ → Result DbError (List Resource))
      → ℕ
      → Result LookupError (List Resource)
  unfolding select_resources
  get_resources_by_tenant (some client) query tenant_id = elim (client.list_resources tenant_id) [
    | none ↦ err system_unreachable
    | some rs ↦ ok (select_resources tenant_id rs)
  ]
  get_resources_by_tenant none query tenant_id = elim (query tenant_id) [
    | err e ↦ err (database e)
    | ok rs ↦ ok rs
  ]

  abbrev client_of : Option SystemClient → SystemClient → SystemClient
  client_of none own = own
  client_of (some internal) own = internal

  -- GetResourceByID: with the internal client if there is one, else with the user's own token
  unfoldable pub get_resource_by_id :
      Option SystemClient → SystemClient → ℕ → ℕ → Result LookupError Resource
  get_resource_by_id internal own id tenant_id = elim ((client_of internal own).get_resource id) [
    | none ↦ err system_unreachable
    | some r ↦ if of_tenant tenant_id r then ok r else err access_denied
  ]

pub record ResourceWithStats : Type 0 where
  pub resource_id : ℕ
  pub resource_name : String
  pub resource_type : String
  pub total_schemas : ℕ
  pub scanned_schemas : ℕ
  pub unscanned_schemas : ℤ
  pub last_scan_at : Option ℕ

-- metaResByResourceID: of several records of a resource the last one counts
unfoldable pub record_of : ℕ → List MetaResource → Option MetaResource
record_of id [] = none
record_of id (m ∷ ms) = elim (record_of id ms) [
  | some later ↦ some later
  | none ↦ if m.resource_id == id then some m else none
]

abbrev pub is_member : ℕ → List ℕ → Bool
is_member i [] = false
is_member i (j ∷ js) = j == i || is_member i js

abbrev pub is_scanned : ScanStatus → Bool
is_scanned scanned = true
is_scanned unscanned = false
is_scanned scanning = false

abbrev pub is_top : Option ℕ → Bool
is_top none = true
is_top (some k) = false

-- the roots of the resources, and those that are scanned
unfoldable pub is_counted : ℕ → List ℕ → MetaNode → Bool
is_counted tenant_id ids n =
    n.tenant_id == tenant_id && is_member n.res_id ids && is_top n.parent_node_id

unfoldable pub is_counted_scanned : ℕ → List ℕ → MetaNode → Bool
is_counted_scanned tenant_id ids n =
    n.tenant_id == tenant_id
    && is_member n.res_id ids
    && is_top n.parent_node_id
    && is_scanned n.scan_status

-- what the queries found: no statement is made where no resource has a record
pub record Statistics : Type 0 where
  pub total : ℕ → Option ℕ
  pub scanned_count : ℕ → Option ℕ
  pub last_scan : ℕ → Option ℕ

unfoldable pub stats_of : List MetaResource → Statistics → Resource → ResourceWithStats
unfolding record_of ◌-ℤ◌
stats_of ms found r = elim (record_of r.id ms) [
  | none ↦ record {
    resource_id = r.id;
    resource_name = r.name;
    resource_type = r.resource_type;
    total_schemas = 0;
    scanned_schemas = 0;
    unscanned_schemas = pos 0;
    last_scan_at = none;
  }
  | some m ↦ record {
    resource_id = r.id;
    resource_name = r.name;
    resource_type = r.resource_type;
    total_schemas = or_zero (found.total m.id);
    scanned_schemas = or_zero (found.scanned_count m.id);
    unscanned_schemas =
        pos (or_zero (found.total m.id)) -ℤ pos (or_zero (found.scanned_count m.id));
    last_scan_at = found.last_scan m.id;
  }
]

-- ErrRecordNotFound stands for no records
abbrev or_no_records : Result DbError (List MetaResource) → Result DbError (List MetaResource)
or_no_records (ok ms) = ok ms
or_no_records (err not_found) = ok []
or_no_records (err (failed e)) = err (failed e)

module _ {T : Type 0} (db : Forest T)
    (last_scans : T → ℕ → List ℕ → Result DbError (ℕ → Option ℕ)) where
  unfoldable pub read_statistics : ℕ → List ℕ → T → Result LookupError Statistics
  unfolding is_counted is_counted_scanned
  read_statistics tenant_id [] s =
      ok (record { total = λ i. none; scanned_count = λ i. none; last_scan = λ i. none })
  read_statistics tenant_id (i ∷ ids) s = elim (db.count_nodes s (is_counted tenant_id (i ∷ ids))) [
    | err e ↦ err (database e)
    | ok totals ↦ elim (db.count_nodes s (is_counted_scanned tenant_id (i ∷ ids))) [
      | err e ↦ err (database e)
      | ok scans ↦ elim (last_scans s tenant_id (i ∷ ids)) [
        | err e ↦ err (database e)
        | ok times ↦ ok (record { total = totals; scanned_count = scans; last_scan = times })
      ]
    ]
  ]

  -- GetResourcesWithStats, after GetResourcesByTenant; `records` are the resources' records
  unfoldable pub get_resources_with_stats :
      Result LookupError (List Resource)
      → Result DbError (List MetaResource)
      → ℕ
      → T
      → Result LookupError (List ResourceWithStats)
  unfolding read_statistics stats_of
  get_resources_with_stats (err e) records tenant_id s = err e
  get_resources_with_stats (ok []) records tenant_id s = ok []
  get_resources_with_stats (ok (r ∷ rs)) records tenant_id s = elim (or_no_records records) [
    | err e ↦ err (database e)
    | ok ms ↦ elim (read_statistics tenant_id (map (λ (m : MetaResource). m.id) ms) s) [
      | err e ↦ err e
      | ok found ↦ ok (map (stats_of ms found) (r ∷ rs))
    ]
  ]

  -- the counts of a row are those of a database
  abbrev IsBounded : ResourceWithStats → Type 0
  IsBounded row =
      (row.scanned_schemas ≤ row.total_schemas)
      × (row.unscanned_schemas ≡ pos (row.total_schemas - row.scanned_schemas))

  abbrev Counts : Statistics → Type 0
  Counts found = (i : ℕ) → or_zero (found.scanned_count i) ≤ or_zero (found.total i)

  counted_scanned-counted :
      (tenant_id : ℕ) (ids : List ℕ) (n : MetaNode)
      → is_counted_scanned tenant_id ids n ≡ true
      → is_counted tenant_id ids n ≡ true
  unfolding is_counted_scanned is_counted
  counted_scanned-counted tenant_id ids n h = ground arith

  read_statistics-Counts :
      IsForest db
      → (tenant_id : ℕ) (ids : List ℕ) (s : T) (found : Statistics)
      → read_statistics tenant_id ids s ≡ ok found
      → Counts found
  unfolding read_statistics
  read_statistics-Counts laws tenant_id [] s found h =
      let it : record { total = λ i. none; scanned_count = λ i. none; last_scan = λ i. none }
          ≡ found =
        ground arith in
      subst Counts it (λ i. omega arith)
  read_statistics-Counts laws tenant_id (i ∷ ids) s found h =
      let all = is_counted tenant_id (i ∷ ids) in
      let done = is_counted_scanned tenant_id (i ∷ ids) in
      elim (Result-cases (db.count_nodes s all)) [
        | inl (e, bad) ↦ absurd (ground arith)
        | inr (totals, counted) ↦ elim (Result-cases (db.count_nodes s done)) [
          | inl (e, bad) ↦ absurd (ground arith)
          | inr (scans, counted') ↦ elim (Result-cases (last_scans s tenant_id (i ∷ ids))) [
            | inl (e, bad) ↦ absurd (ground arith)
            | inr (times, read) ↦
                let it : record { total = totals; scanned_count = scans; last_scan = times }
                    ≡ found =
                  ground arith in
                subst Counts it (
                  laws.count_nodes_mono s done all scans totals
                    (counted_scanned-counted tenant_id (i ∷ ids)) counted' counted)
          ]
        ]
      ]

  stats_of-IsBounded :
      (ms : List MetaResource) (found : Statistics) (r : Resource)
      → Counts found
      → IsBounded (stats_of ms found r)
  unfolding stats_of ◌-ℤ◌
  stats_of-IsBounded ms found r counts = elim (Option-cases (record_of r.id ms)) [
    | inl absent ↦ (ground arith, ground arith)
    | inr (m, there) ↦ (ground (arith, counts m.id), ground (arith, counts m.id))
  ]

  rows-IsBounded :
      (ms : List MetaResource) (found : Statistics) (rs : List Resource)
      → Counts found
      → All IsBounded (map (stats_of ms found) rs)
  rows-IsBounded ms found [] counts = tt
  rows-IsBounded ms found (r ∷ rs) counts =
      (stats_of-IsBounded ms found r counts, rows-IsBounded ms found rs counts)

  -- In every row that GetResourcesWithStats returns no more schemas are scanned than there are,
  -- and the number of those that are not scanned is the difference, which is not negative. The
  -- database meets its laws `IsForest`.
  pub get_resources_with_stats-IsBounded :
      IsForest db
      → (resources : Result LookupError (List Resource))
        (records : Result DbError (List MetaResource))
      → (tenant_id : ℕ) (s : T) (rows : List ResourceWithStats)
      → get_resources_with_stats resources records tenant_id s ≡ ok rows
      → All IsBounded rows
  unfolding get_resources_with_stats
  get_resources_with_stats-IsBounded laws (err e) records tenant_id s rows h = absurd (ground arith)
  get_resources_with_stats-IsBounded laws (ok []) records tenant_id s rows h =
      let it : [] ≡ rows = ground arith in subst (All IsBounded) it tt
  get_resources_with_stats-IsBounded laws (ok (r ∷ rs)) records tenant_id s rows h =
      elim (Result-cases (or_no_records records)) [
        | inl (e, bad) ↦ absurd (ground arith)
        | inr (ms, known) ↦
            elim (Result-cases
              (read_statistics tenant_id (map (λ (m : MetaResource). m.id) ms) s)) [
                | inl (e, bad) ↦ absurd (ground arith)
                | inr (found, done) ↦
                    let it : map (stats_of ms found) (r ∷ rs) ≡ rows = ground arith in
                    subst (All IsBounded) it (
                      rows-IsBounded ms found (r ∷ rs) (
                        read_statistics-Counts laws tenant_id (map (λ (m : MetaResource). m.id) ms)
                          s found done))
              ]
      ]
