-- ===== src/Meta/S3Scanner/Buckets/Owned.antt =====
-- What scanBucket and ScanPath report of one bucket.
use addp.Common.{
  String, false, not, ◌&&◌, some, List, [], ◌∷◌, map, All, All-append, ok, ◌≡◌, refl, ◌∙◌, arith,
  str_eq, inl, inr, Bool-cases, Option-cases,
}
use mathlib.Core.Path.{subst}
use addp.Common.Int.{ℤ}
use addp.Common.Dict.{Dict, lookup, insert}
use addp.Text.{
  is_empty, is_slash, trim_prefix, after_prefix, trim_slashes, trim_left, trim_space,
  trim_last_slash, ends_in_slash,
}
use addp.Text
use addp.Text.Sort
use addp.Text.Sort.{sort_by, place}
use addp.Meta.Objects.{ObjectMetadata, is_bucket, has_reserved, filter_reserved_metadata}
use addp.Meta.S3Scanner.{
  Entry, Client, Scan, empty_scan, new_dir, add_object, ensure_dir, charge_dir, charge_dirs,
  with_slash, relative_key, is_skipped, scan_object, with_object, scan_entry, scan_entries,
}
use addp.Meta.S3Scanner.Buckets.{
  bucket_meta, dir_meta, results, scan_bucket, object_item, scan_below,
}

-- one slash less in front
trim_slashes-trim_prefix : (s : String) → trim_slashes (trim_prefix "/" s) ≡ trim_slashes s
unfolding trim_slashes trim_prefix after_prefix trim_left
trim_slashes-trim_prefix String.[] = refl
trim_slashes-trim_prefix (String.◌∷◌ c s) = ground arith

has_reserved-trim_prefix : (s : String) → has_reserved (trim_prefix "/" s) ≡ has_reserved s
unfolding has_reserved
has_reserved-trim_prefix s = rw (trim_slashes-trim_prefix s) refl

module _ {A : Type 0} (P : A → Type 0) where
  abbrev AllValues : Dict A → Type 0
  AllValues m = All (λ (e : String × A). P e.1) m

  insert-AllValues :
      (k : String) (v : A) (m : Dict A) → P v → AllValues m → AllValues (insert k v m)
  unfolding insert
  insert-AllValues k v [] p h = (p, tt)
  insert-AllValues k v ((j, w) ∷ m) p (q, h) = elim (Bool-cases (str_eq j k)) [
    | inl same ↦ rw same (p, h)
    | inr other ↦ rw other (q, insert-AllValues k v m p h)
  ]

  lookup-AllValues : (k : String) (m : Dict A) (v : A) → AllValues m → lookup k m ≡ some v → P v
  unfolding lookup
  lookup-AllValues k [] v h e = absurd (ground arith)
  lookup-AllValues k ((j, w) ∷ m) v (q, h) e = elim (Bool-cases (str_eq j k)) [
    | inl same ↦ let it : w ≡ v = ground arith in subst P it q
    | inr other ↦ lookup-AllValues k m v h (ground arith)
  ]

  place-All : (name : A → String) (x : A) (l : List A) → P x → All P l → All P (place name x l)
  unfolding place
  place-All name x [] p h = (p, tt)
  place-All name x (y ∷ l) p (q, h) = elim (Bool-cases (Sort.less (name y) (name x))) [
    | inl before ↦ rw before (q, place-All name x l p h)
    | inr after ↦ rw after (p, (q, h))
  ]

  sort_by-All : (name : A → String) (l : List A) → All P l → All P (sort_by name l)
  unfolding sort_by
  sort_by-All name [] h = tt
  sort_by-All name (x ∷ l) (p, h) = place-All name x (sort_by name l) p (sort_by-All name l h)

-- an item of a bucket: not the bucket's own, and of no reserved path
pub record IsOwn (b : String) (m : ObjectMetadata) : Type 0 where
  pub in_bucket : m.bucket_name ≡ b
  pub unreserved : has_reserved m.relative_path ≡ false
  pub is_item : is_bucket m.node_type ≡ false

module _ (client : Client) (b : String) where
  abbrev IsOf : ObjectMetadata → Type 0
  IsOf m = m.bucket_name ≡ b

  ensure_dir-IsOf :
      (d : String) (aggs : Dict ObjectMetadata)
      → AllValues IsOf aggs
      → AllValues IsOf (ensure_dir b d aggs)
  unfolding ensure_dir
  ensure_dir-IsOf d aggs h = elim (Bool-cases (is_empty (trim_slashes d))) [
    | inl empty ↦ rw empty h
    | inr full ↦ elim (Option-cases (lookup (trim_slashes d) aggs)) [
      | inr (m, there) ↦ rw (full, there) h
      | inl absent ↦ elim (Bool-cases (has_reserved (trim_slashes d))) [
        | inl reserved ↦ rw (full, absent, reserved) h
        | inr open_name ↦
            rw (full, absent, open_name)
              (insert-AllValues IsOf (trim_slashes d) (new_dir b (trim_slashes d)) aggs refl h)
      ]
    ]
  ]

  charge_dir-IsOf :
      (size : ℤ) (d : String) (aggs aggs' : Dict ObjectMetadata)
      → AllValues IsOf aggs
      → charge_dir b size d aggs ≡ some aggs'
      → AllValues IsOf aggs'
  unfolding charge_dir
  charge_dir-IsOf size d aggs aggs' h e = elim (Option-cases (lookup d (ensure_dir b d aggs))) [
    | inl absent ↦ absurd (ground arith)
    | inr (m, there) ↦
        let owned = ensure_dir-IsOf d aggs h in
        let it : insert d (add_object size m) (ensure_dir b d aggs) ≡ aggs' = ground arith in
        subst (AllValues IsOf) it (
          insert-AllValues IsOf d (add_object size m) (ensure_dir b d aggs)
            (lookup-AllValues IsOf d (ensure_dir b d aggs) m owned there) owned)
  ]

  charge_dirs-IsOf :
      (size : ℤ) (ds : List String) (aggs aggs' : Dict ObjectMetadata)
      → AllValues IsOf aggs
      → charge_dirs b size ds aggs ≡ some aggs'
      → AllValues IsOf aggs'
  unfolding charge_dirs
  charge_dirs-IsOf size [] aggs aggs' h e =
      let it : aggs ≡ aggs' = ground arith in subst (AllValues IsOf) it h
  charge_dirs-IsOf size (d ∷ ds) aggs aggs' h e = elim (Option-cases (charge_dir b size d aggs)) [
    | inl panic ↦ absurd (ground arith)
    | inr (one, done) ↦
        charge_dirs-IsOf size ds one aggs' (charge_dir-IsOf size d aggs one h done) (ground arith)
  ]

  abbrev IsScan : Scan → Type 0
  IsScan t = AllValues IsOf t.dirs × All (IsOwn b) t.objects

  scan_object-IsScan :
      (clean : String) (e : Entry) (t t' : Scan)
      → is_skipped clean e ≡ false
      → IsScan t
      → scan_object client b (relative_key clean e.key) e t ≡ some t'
      → IsScan t'
  unfolding scan_object is_skipped
  scan_object-IsScan clean e t t' kept (dirs, objects) made =
      let relative = relative_key clean e.key in
      elim (Option-cases
        (charge_dirs b e.size (map Text.join (Text.Parts.inits (Text.split relative))) t.dirs)) [
          | inl panic ↦ absurd (ground arith)
          | inr (after, done) ↦
              let it : with_object client b relative e t after ≡ t' = ground arith in
              subst IsScan it (
                charge_dirs-IsOf e.size (map Text.join (Text.Parts.inits (Text.split relative)))
                    t.dirs after dirs done,
                All-append (IsOwn b) t.objects _ objects
                    (record { in_bucket = refl; unreserved = ground arith; is_item = refl }, tt),
              )
        ]

  scan_entry-IsScan :
      (clean : String) (e : Entry) (t t' : Scan)
      → IsScan t
      → scan_entry client b clean e t ≡ some t'
      → IsScan t'
  unfolding scan_entry
  scan_entry-IsScan clean e t t' h made = elim (Bool-cases (is_skipped clean e)) [
    | inl skipped ↦ let it : t ≡ t' = ground arith in subst IsScan it h
    | inr kept ↦ elim (Bool-cases (ends_in_slash e.key)) [
      | inr other ↦ scan_object-IsScan clean e t t' kept h (ground arith)
      | inl slash ↦
          let marker = trim_last_slash (relative_key clean e.key) in
          let it : record t { dirs = ensure_dir b marker t.dirs } ≡ t' = ground arith in
          subst IsScan it (ensure_dir-IsOf marker t.dirs h.0, h.1)
    ]
  ]

  scan_entries-IsScan :
      (clean : String) (es : List Entry) (t t' : Scan)
      → IsScan t
      → scan_entries client b clean es t ≡ some t'
      → IsScan t'
  unfolding scan_entries
  scan_entries-IsScan clean [] t t' h e = let it : t ≡ t' = ground arith in subst IsScan it h
  scan_entries-IsScan clean (e ∷ es) t t' h done =
      elim (Option-cases (scan_entry client b clean e t)) [
        | inl panic ↦ absurd (ground arith)
        | inr (t1, one) ↦
            scan_entries-IsScan clean es t1 t' (scan_entry-IsScan clean e t t1 h one) (ground arith)
      ]

  dirs-IsOf :
      (clean : String) (dirs : Dict ObjectMetadata)
      → AllValues IsOf dirs
      → All IsOf (map (λ (d, m). dir_meta b clean m) dirs)
  unfolding dir_meta
  dirs-IsOf clean [] h = tt
  dirs-IsOf clean ((d, m) ∷ dirs) (own, h) = (own, dirs-IsOf clean dirs h)

  reserved_or :
      (relative : String)
      → (not (is_empty relative) && has_reserved relative) ≡ false
      → has_reserved relative ≡ false
  reserved_or String.[] h = unfold has_reserved trim_slashes trim_left Text.trim_right in refl
  reserved_or (String.◌∷◌ c s) h = ground arith

  filter_reserved_metadata-IsOwn :
      (metas : List ObjectMetadata)
      → All IsOf metas
      → All (IsOwn b) (filter_reserved_metadata metas)
  unfolding filter_reserved_metadata
  filter_reserved_metadata-IsOwn [] h = tt
  filter_reserved_metadata-IsOwn (m ∷ metas) (own, h) =
      let rest = filter_reserved_metadata-IsOwn metas h in
      elim (Bool-cases (is_bucket m.node_type)) [
        | inl bucket ↦ rw bucket rest
        | inr item ↦
            elim (Bool-cases (not (is_empty m.relative_path) && has_reserved m.relative_path)) [
              | inl reserved ↦ rw (item, reserved) rest
              | inr free ↦ elim (Bool-cases (has_reserved m.path)) [
                | inl inside ↦ rw (item, free, inside) rest
                | inr outside ↦
                    rw (item, free, outside)
                      (
                        record {
                          in_bucket = own;
                          unreserved = reserved_or m.relative_path free;
                          is_item = item;
                        },
                        rest,
                      )
              ]
            ]
      ]

  pub scan_bucket-IsOwn :
      (p : String) (metas : List ObjectMetadata)
      → scan_bucket client b p ≡ ok metas
      → All (IsOwn b) metas
  unfolding scan_bucket results bucket_meta
  scan_bucket-IsOwn p metas h =
      let clean = with_slash (trim_prefix "/" p) in
      elim (Option-cases (scan_entries client b clean (client.list_objects b clean) empty_scan)) [
        | inl panic ↦ absurd (ground arith)
        | inr (t, done) ↦
            let (dirs, objects) =
              scan_entries-IsScan clean (client.list_objects b clean) empty_scan t (tt, tt) done in
            let it : results b p clean t ≡ metas = ground arith in
            subst (All (IsOwn b)) it (
              All-append (IsOwn b)
                (filter_reserved_metadata
                  (bucket_meta b p clean t ∷ map (λ (d, m). dir_meta b clean m) t.dirs))
                _
                (filter_reserved_metadata-IsOwn
                  (bucket_meta b p clean t ∷ map (λ (d, m). dir_meta b clean m) t.dirs)
                  (refl, dirs-IsOf clean t.dirs dirs))
                (sort_by-All (IsOwn b) (λ m. m.relative_path) t.objects objects))
      ]

  pub scan_below-IsOwn :
      (p : String) (metas : List ObjectMetadata)
      → scan_below client b p ≡ ok metas
      → All (IsOwn b) metas
  unfolding scan_below object_item
  scan_below-IsOwn p metas h = elim (Bool-cases (has_reserved p)) [
    | inl reserved ↦ let it : [] ≡ metas = ground arith in subst (All (IsOwn b)) it tt
    | inr free ↦ elim (Bool-cases (is_empty p)) [
      | inl whole ↦ scan_bucket-IsOwn "" metas (ground arith)
      | inr part ↦ elim (Option-cases (client.stat_object b (trim_prefix "/" p))) [
        | inl absent ↦ scan_bucket-IsOwn (trim_prefix "/" p) metas (ground arith)
        | inr (stat, there) ↦
            let it : object_item client b stat (trim_prefix "/" p) ∷ [] ≡ metas = ground arith in
            subst (All (IsOwn b)) it (
              record {
                in_bucket = refl;
                unreserved = has_reserved-trim_prefix p ∙ free;
                is_item = refl;
              },
              tt,
            )
      ]
    ]
  ]
