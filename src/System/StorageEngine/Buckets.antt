-- ===== src/System/StorageEngine/Buckets.antt =====
-- When the test of an object store succeeds.
use addp.Common.{
  String, true, some, List, [], ◌∷◌, ◌++◌, ok, ◌≡◌, ◌≢◌, ◌↔◌, inl, inr, str_eq, eq_iff, arith, ap,
  ◌∙◌, Bool-cases, Option-cases,
}
use addp.System.Models.{ConnectionInfo}
use addp.System.StorageEngine.{Clients, text_at, credentials, has_bucket, check_bucket, test_minio}

-- a name of a list, with what stands around it
abbrev pub Occurs : String → List String → Type 0
Occurs name names = (before after : List String) × (names ≡ before ++ name ∷ after)

has_bucket-Occurs :
    (name : String) (names : List String) → has_bucket name names ≡ true → Occurs name names
unfolding has_bucket
has_bucket-Occurs name [] h = absurd (ground arith)
has_bucket-Occurs name (b ∷ bs) h = elim (Bool-cases (str_eq b name)) [
  | inl same ↦ ([], bs, ap (λ x. x ∷ bs) ((eq_iff b name).0 same))
  | inr other ↦
      let (before, after, split) = has_bucket-Occurs name bs (ground arith) in
      (b ∷ before, after, ap (λ xs. b ∷ xs) split)
]

has_bucket-append :
    (name : String) (before after : List String) → has_bucket name (before ++ name ∷ after) ≡ true
unfolding has_bucket
has_bucket-append name [] after = ground (arith, eq_iff name name)
has_bucket-append name (b ∷ before) after = ground (arith, has_bucket-append name before after)

module _ (clients : Clients) where
  check_bucket_iff :
      (bucket : String) (names : List String)
      → (check_bucket clients bucket names ≡ ok tt) ↔ ((bucket ≢ "") → Occurs bucket names)
  unfolding check_bucket
  check_bucket_iff bucket names = (
    λ h named. has_bucket-Occurs bucket names (ground (arith, eq_iff bucket "")),
    λ h. elim (Bool-cases (str_eq bucket "")) [
      | inl empty ↦ ground arith
      | inr named ↦
          let (before, after, split) = h (λ e. ground (arith, eq_iff bucket "")) in
          ground (arith, ap (has_bucket bucket) split ∙ has_bucket-append bucket before after)
    ],
  )

  -- The test of a MinIO connection succeeds exactly when the endpoint and both keys are given, the
  -- client can be made and lists the buckets, and the bucket, if one is named, is among them.
  pub test_minio_iff :
      (info : ConnectionInfo)
      → (test_minio clients info ≡ ok tt) ↔ (
          ((text_at "endpoint" info ≢ "")
            × (text_at "access_key" info ≢ "")
            × (text_at "secret_key" info ≢ ""))
          × (clients.accepts (credentials clients info) ≡ true)
          × ((names : List String) × (clients.buckets (credentials clients info) ≡ some names)
              × ((text_at "bucket" info ≢ "") → Occurs (text_at "bucket" info) names)))
  unfolding test_minio
  test_minio_iff info = (
    λ h. elim (Option-cases (clients.buckets (credentials clients info))) [
      | inl bad ↦ absurd (ground arith)
      | inr (names, listed) ↦ (
        (
          λ e. ground (arith, eq_iff (text_at "endpoint" info) ""),
          λ e. ground (arith, eq_iff (text_at "access_key" info) ""),
          λ e. ground (arith, eq_iff (text_at "secret_key" info) ""),
        ),
        ground arith,
        (names, listed, (check_bucket_iff (text_at "bucket" info) names).0 (ground arith)),
      )
    ],
    λ ((e, a, k), accepted, (names, listed, known)).
        let found = (check_bucket_iff (text_at "bucket" info) names).1 known in
        ground (
          arith,
          found,
          eq_iff (text_at "endpoint" info) "",
          eq_iff (text_at "access_key" info) "",
          eq_iff (text_at "secret_key" info) "",
        ),
  )
