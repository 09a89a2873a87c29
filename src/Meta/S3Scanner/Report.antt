-- ===== src/Meta/S3Scanner/Report.antt =====
-- What scanBucket reports for a listing, described element by element.
use addp.Common.{
  String, Bool, true, false, not, ◌||◌, Option, some, List, [], ◌∷◌, ◌++◌, map, All, ◌≡◌, refl, sym,
  ap, ◌∙◌, arith, str_eq, if◌then◌else◌, inl, inr, Bool-cases,
}
use mathlib.Core.List.{append-nil, append_assoc}
use addp.Common.Int.{ℤ, pos, add_64}
use addp.Common.Dict.{Dict, lookup}
use Prim.Native.String
use addp.Text.{is_empty, trim_prefix, trim_last_slash, ends_in_slash, split, join}
use addp.Text.Parts.{inits, before_slashes, map-join-inits}
use addp.Text.Inside.{lies_in, occurrences-before_slashes}
use addp.Meta.Objects.{object, ObjectMetadata, has_reserved}
use addp.Meta.S3Scanner.{
  Entry, Client, Scan, ensure_dir, charge_dirs, relative_key, is_skipped, with_object, scan_object,
  scan_entry, scan_entries,
}
use addp.Meta.S3Scanner.Aggregates.{
  IsPlain, or_new, bump, times, times_once, lookup-ensure_dir, charge_dirs_lem,
}

-- the path of a key: without the prefix that was listed, and without a slash in front
abbrev pub path_below : String → String → String
path_below clean key = trim_prefix "/" (trim_prefix clean key)

-- an element that reports an error, has no path of its own, or has a reserved segment in it
abbrev pub passed_over : String → Entry → Bool
passed_over clean e =
    e.failed || is_empty (path_below clean e.key) || has_reserved (path_below clean e.key)

-- what one element does to the entry of a directory
unfoldable pub dir_after :
    String → String → String → Entry → Option ObjectMetadata → Option ObjectMetadata
unfolding ends_in_slash trim_last_slash lies_in
dir_after b clean d e o =
    if passed_over clean e
    then o
    else if ends_in_slash e.key
    then (if str_eq (trim_last_slash (path_below clean e.key)) d then some (or_new b d o) else o)
    else if lies_in d (path_below clean e.key)
    then bump b d e.size o
    else o

-- what a listing does to it
unfoldable pub dir_after_all :
    String → String → String → List Entry → Option ObjectMetadata → Option ObjectMetadata
unfolding dir_after
dir_after_all b clean d [] o = o
dir_after_all b clean d (e ∷ es) o = dir_after_all b clean d es (dir_after b clean d e o)

-- the directories that an element names are plain
abbrev pub HasPlainDirs : String → Entry → Type 0
HasPlainDirs clean e =
    (passed_over clean e ≡ false
      → ends_in_slash e.key ≡ true
      → IsPlain (trim_last_slash (path_below clean e.key)))
    × (passed_over clean e ≡ false
        → ends_in_slash e.key ≡ false
        → All IsPlain (before_slashes (path_below clean e.key)))

-- the objects that a listing reports
unfoldable pub is_object : String → Entry → Bool
unfolding ends_in_slash
is_object clean e = not (passed_over clean e || ends_in_slash e.key)

-- what an object does to the totals, and what a listing does
unfoldable pub size_after : String → List Entry → ℤ → ℤ
unfolding is_object
size_after clean [] n = n
size_after clean (e ∷ es) n = size_after clean es (if is_object clean e then add_64 n e.size else n)

unfoldable pub count_after : String → List Entry → ℤ → ℤ
unfolding is_object
count_after clean [] n = n
count_after clean (e ∷ es) n =
    count_after clean es (if is_object clean e then add_64 n (pos 1) else n)

module _ (client : Client) (b clean : String) where
  -- the item of an object
  abbrev pub item_of : Entry → ObjectMetadata
  item_of e = record {
    bucket_name = b;
    path = String.◌++◌ b (String.◌++◌ "/" e.key);
    relative_path = path_below clean e.key;
    node_type = object;
    file_type = trim_prefix "." (client.to_lower (client.ext (path_below clean e.key)));
    size_bytes = e.size;
    object_count = pos 1;
    last_modified = some e.last_modified;
  }

  -- the objects that a listing reports, in its order
  unfoldable pub objects_of : List Entry → List ObjectMetadata
  unfolding is_object
  objects_of [] = []
  objects_of (e ∷ es) =
      let rest = objects_of es in if is_object clean e then item_of e ∷ rest else rest

  scan_object_lem :
      (relative : String) (e : Entry) (t : Scan)
      → All IsPlain (before_slashes relative)
      → (dirs : Dict ObjectMetadata) × (scan_object client b relative e t
          ≡ some (with_object client b relative e t dirs))
        × ((d : String)
            → lookup d dirs
              ≡ (if lies_in d relative then bump b d e.size (lookup d t.dirs) else lookup d t.dirs))
  unfolding scan_object
  scan_object_lem relative e t plain =
      let (dirs, done, at) = charge_dirs_lem b e.size (before_slashes relative) t.dirs plain in
      let charged : charge_dirs b e.size (map join (inits (split relative))) t.dirs ≡ some dirs =
        ap (λ l. charge_dirs b e.size l t.dirs) (map-join-inits relative) ∙ done in
      (
        dirs,
        ground arith,
        λ d.
            at d
            ∙ ap (λ n. times n (bump b d e.size) (lookup d t.dirs))
                (occurrences-before_slashes d relative)
            ∙ times_once (bump b d e.size) (lies_in d relative) (lookup d t.dirs),
      )

  -- what one element does to the variables of the loop
  abbrev After : Entry → Scan → Scan → Type 0
  After e t t' =
      (t'.total_size ≡ (if is_object clean e then add_64 t.total_size e.size else t.total_size))
      × (t'.total_count
          ≡ (if is_object clean e then add_64 t.total_count (pos 1) else t.total_count))
      × (t'.objects ≡ (if is_object clean e then t.objects ++ item_of e ∷ [] else t.objects))
      × ((d : String) → lookup d t'.dirs ≡ dir_after b clean d e (lookup d t.dirs))

  scan_entry_lem :
      (e : Entry) (t : Scan)
      → HasPlainDirs clean e
      → (t' : Scan) × (scan_entry client b clean e t ≡ some t') × After e t t'
  unfolding scan_entry is_skipped relative_key is_object dir_after
  scan_entry_lem e t (marker, names) = elim (Bool-cases (passed_over clean e)) [
    | inl skipped ↦ (t, ground arith, (ground arith, ground arith, ground arith, λ d. ground arith))
    | inr kept ↦ elim (Bool-cases (ends_in_slash e.key)) [
      | inl slash ↦ (
        record t { dirs = ensure_dir b (trim_last_slash (path_below clean e.key)) t.dirs },
        ground arith,
        (
          ground arith,
          ground arith,
          ground arith,
          λ d. ground (
            arith,
            lookup-ensure_dir b d (trim_last_slash (path_below clean e.key)) t.dirs
                (marker kept slash),
          ),
        ),
      )
      | inr other ↦
          let (dirs, done, at) = scan_object_lem (path_below clean e.key) e t (names kept other) in
          (
            with_object client b (path_below clean e.key) e t dirs,
            ground arith,
            (ground arith, ground arith, ground arith, λ d. ground (arith, at d)),
          )
    ]
  ]

  -- For a listing whose directories are plain, scanBucket's loop does not panic, and it adds to
  -- its variables: to the objects the listing's objects in its order, to the totals their sizes
  -- and number, and to every directory the sizes and number of the objects whose paths lie in it,
  -- an entry being made for it too where a marker names it.
  pub scan_entries-report :
      (es : List Entry) (t : Scan)
      → All (HasPlainDirs clean) es
      → (t' : Scan) × (scan_entries client b clean es t ≡ some t')
        × (t'.total_size ≡ size_after clean es t.total_size)
        × (t'.total_count ≡ count_after clean es t.total_count)
        × (t'.objects ≡ t.objects ++ objects_of es)
        × ((d : String) → lookup d t'.dirs ≡ dir_after_all b clean d es (lookup d t.dirs))
  unfolding scan_entries objects_of size_after count_after dir_after_all
  scan_entries-report [] t h = (t, refl, refl, refl, sym (append-nil t.objects), λ d. refl)
  scan_entries-report (e ∷ es) t (h, hs) =
      let (t1, one, (size, count, objects, dirs)) = scan_entry_lem e t h in
      let (t2, all, sizes, counts, all_objects, all_dirs) = scan_entries-report es t1 hs in
      (
        t2,
        ground arith,
        sizes ∙ ap (size_after clean es) size,
        counts ∙ ap (count_after clean es) count,
        elim (Bool-cases (is_object clean e)) [
          | inl here ↦
              let first : t1.objects ≡ t.objects ++ item_of e ∷ [] = ground arith in
              all_objects
              ∙ ap (λ l. l ++ objects_of es) first
              ∙ append_assoc t.objects (item_of e ∷ []) (objects_of es)
              ∙ ground arith
          | inr other ↦ ground arith
        ],
        λ d. all_dirs d ∙ ap (dir_after_all b clean d es) (dirs d),
      )
