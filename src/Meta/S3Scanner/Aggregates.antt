-- ===== src/Meta/S3Scanner/Aggregates.antt =====
-- The directories that scanBucket reports, with their sizes and counts.
use addp.Common.{
  ℕ, zero, suc, ◌+◌, String, Bool, true, false, Option, none, some, List, [], ◌∷◌, All, ◌≡◌, refl,
  ap, ◌∙◌, arith, str_eq, eq_iff, if◌then◌else◌, inl, inr, Option-cases,
}
use addp.Common.Int.{ℤ, pos, add_64}
use addp.Common.Dict.{Dict, lookup, insert, lookup-insert}
use addp.Text.{is_empty, trim_slashes}
use addp.Text.Inside.{occurrences}
use addp.Meta.Objects.{prefix, ObjectMetadata, has_reserved}
use addp.Meta.S3Scanner.{new_dir, add_object, ensure_dir, charge_dir, charge_dirs}

-- the name of a directory that is not empty, begins and ends in no slash, and is not reserved
pub record IsPlain (d : String) : Type 0 where
  pub full : is_empty d ≡ false
  pub trimmed : trim_slashes d ≡ d
  pub unreserved : has_reserved d ≡ false

-- an entry of a directory that is made where there is none
abbrev pub or_new : String → String → Option ObjectMetadata → ObjectMetadata
or_new b d none = record {
  bucket_name = b;
  path = "";
  relative_path = d;
  node_type = prefix;
  file_type = "";
  size_bytes = pos 0;
  object_count = pos 0;
  last_modified = none;
}
or_new b d (some m) = m

pub lookup-ensure_dir :
    (b d x : String) (aggs : Dict ObjectMetadata)
    → IsPlain x
    → lookup d (ensure_dir b x aggs)
      ≡ (if str_eq x d then some (or_new b d (lookup d aggs)) else lookup d aggs)
unfolding ensure_dir
lookup-ensure_dir b d x aggs h = elim (Option-cases (lookup x aggs)) [
  | inl absent ↦
      ground
        (arith, h.full, h.trimmed, h.unreserved, lookup-insert x d (new_dir b x) aggs, eq_iff x d)
  | inr (m, there) ↦ ground (arith, h.full, h.trimmed, eq_iff x d)
]

-- one object more in a directory: its size is added to the directory's, and one to its number
abbrev pub bump : String → String → ℤ → Option ObjectMetadata → Option ObjectMetadata
bump b d size o = some (record (or_new b d o) {
  size_bytes = add_64 (or_new b d o).size_bytes size;
  object_count = add_64 (or_new b d o).object_count (pos 1);
})

abbrev pub times : {A : Type 0} → ℕ → (A → A) → A → A
times zero f a = a
times (suc n) f a = times n f (f a)

charge_dir_lem :
    (b : String) (size : ℤ) (x : String) (aggs : Dict ObjectMetadata)
    → IsPlain x
    → (aggs' : Dict ObjectMetadata) × (charge_dir b size x aggs ≡ some aggs')
      × ((d : String)
          → lookup d aggs' ≡ (if str_eq x d then bump b d size (lookup d aggs) else lookup d aggs))
unfolding charge_dir
charge_dir_lem b size x aggs h =
    let here : lookup x (ensure_dir b x aggs) ≡ some (or_new b x (lookup x aggs)) =
      ground (arith, lookup-ensure_dir b x x aggs h, eq_iff x x) in
    let m = add_object size (or_new b x (lookup x aggs)) in
    (
      insert x m (ensure_dir b x aggs),
      ground arith,
      λ d. ground (
        arith,
        lookup-insert x d m (ensure_dir b x aggs),
        lookup-ensure_dir b d x aggs h,
        eq_iff x d,
      ),
    )

-- one directory more, which is the one that is asked for or another
times-one :
    {A : Type 0}
    → (f : A → A) (hit : Bool) (n : ℕ) (before after : A)
    → after ≡ (if hit then f before else before)
    → times n f after ≡ times ((if hit then 1 else 0) + n) f before
times-one f true n before after e =
    let more : suc n ≡ 1 + n = omega arith in ap (times n f) e ∙ ap (λ k. times k f before) more
times-one f false n before after e =
    let same : n ≡ 0 + n = omega arith in ap (times n f) e ∙ ap (λ k. times k f before) same

pub charge_dirs_lem :
    (b : String) (size : ℤ) (ds : List String) (aggs : Dict ObjectMetadata)
    → All IsPlain ds
    → (aggs' : Dict ObjectMetadata) × (charge_dirs b size ds aggs ≡ some aggs')
      × ((d : String) → lookup d aggs' ≡ times (occurrences d ds) (bump b d size) (lookup d aggs))
unfolding charge_dirs occurrences
charge_dirs_lem b size [] aggs h = (aggs, refl, λ d. refl)
charge_dirs_lem b size (x ∷ ds) aggs (plain, h) =
    let (one, done, at) = charge_dir_lem b size x aggs plain in
    let (all, done', at') = charge_dirs_lem b size ds one h in
    (
      all,
      ground arith,
      λ d.
          at' d
          ∙ times-one (bump b d size) (str_eq x d) (occurrences d ds) (lookup d aggs) (lookup d one)
              (at d),
    )

pub times_once :
    {A : Type 0}
    → (f : A → A) (hit : Bool) (before : A)
    → times (if hit then 1 else 0) f before ≡ (if hit then f before else before)
times_once f true before = refl
times_once f false before = refl
