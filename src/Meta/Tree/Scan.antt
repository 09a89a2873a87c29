-- ===== src/Meta/Tree/Scan.antt =====
-- scanObjectStoragePaths keeps the tree, whichever of its statements fails.
use addp.Common.{
  ℕ, suc, ◌+◌, String, false, none, some, List, [], ◌∷◌, All, All-imp, Result, ok, err, Exec, ◌≡◌,
  refl, sym, arith, str_eq, is_some, inl, inr, Bool-cases, Option-cases,
}
use mathlib.Core.Path.{subst}
use addp.Common.Int.{ℤ, pos}
use addp.Common.Dict.{Dict, lookup, insert}
use addp.Common.Outcome.{Result-cases, Exec-cases, ◌>>=◌, continue}
use addp.Db.{DbError}
use addp.Text.{is_empty}
use addp.Meta.Objects.{ObjectMetadata}
use addp.Meta.Models.{scalar, text, ScanStatus, scanning, scanned, MetaResource, MetaNode}
use addp.Meta.Store.{Forest, IsForest}
use addp.Meta.Nodes.{
  upsert_node, reset_node_state, finalize_node_state, hard_delete_items_by_node,
  hard_delete_descendant_nodes,
}
use addp.Meta.S3Scanner.Buckets.{not_allowed, panicked, contains_name}
use addp.Meta.Persist.{Stats, find_aggregate, Work, persist_object_metas}
use addp.Meta.ObjectScan.{
  ObjectScanner, ScanFailure, panic, Run, start, statement, bucket_node, clear_bucket, write_metas,
  scan_metas, scan_paths, finalize_stats, finalize_buckets, scan_object_storage_paths,
}
use addp.Meta.Tree.{IsTree}
use addp.Meta.Tree.Upsert.{upsert_node-Grows}
use addp.Meta.Tree.Persist.{persist_object_metas-Grows}
use addp.Meta.Tree.Roots.{
  IsKnownRoot, Holds, Grows-Holds, status-Holds, descendants-Holds, items-Holds, upsert_root,
}

module _ {T : Type 0} (db : Forest T) where
  -- between two statements: a tree, and the nodes of the buckets as they were read
  abbrev IsRun : Run T → Type 0
  IsRun r =
      IsTree db r.work.forest
      × All (λ (e : String × MetaNode). IsKnownRoot db e.1 r.work.forest) r.bucket_nodes

  -- how a part of the method may end
  abbrev IsGood : {A : Type 0} → (A → Run T → Type 0) → Result ScanFailure A × Run T → Type 0
  IsGood Q (ok a, r) = IsRun r × Q a r
  IsGood Q (err e, r) = IsRun r

  abbrev Anything : {A : Type 0} → A → Run T → Type 0
  Anything a r = Unit

  bind-IsGood :
      {A B : Type 0} (Q : A → Run T → Type 0) (R : B → Run T → Type 0)
      → (x : Result ScanFailure A × Run T) (f : A → Exec (Run T) ScanFailure B) → IsGood Q x
      → ((a : A) (r : Run T) → IsRun r → Q a r → IsGood R (f a r))
      → IsGood R (continue x.0 f x.1)
  bind-IsGood Q R (ok a, r) f (run, q) next = next a r run q
  bind-IsGood Q R (err e, r) f run next = run

  moved-IsRun :
      (r : Run T) (t : T)
      → IsRun r
      → Holds db r.work.forest t
      → IsRun (record r { work = record r.work { forest = t } })
  moved-IsRun r t (tree, roots) (tree', keep) = (
    tree',
    All-imp (λ (e : String × MetaNode). IsKnownRoot db e.1 r.work.forest)
        (λ (e : String × MetaNode). IsKnownRoot db e.1 t) (λ e. keep e.1) r.bucket_nodes roots,
  )

  statement-IsGood :
      {A : Type 0} (Q : A → Run T → Type 0) (m : Exec T DbError A) (r : Run T)
      → IsRun r
      → ((x : Result DbError A) (t : T) → m r.work.forest ≡ (x, t) → Holds db r.work.forest t)
      → ((a : A) (t : T)
          → m r.work.forest ≡ (ok a, t)
          → Q a (record r { work = record r.work { forest = t } }))
      → IsGood Q (statement m r)
  statement-IsGood Q m r run holds gives = elim (Exec-cases (m r.work.forest)) [
    | inl (e, t, bad) ↦ rw bad (moved-IsRun r t run (holds (err e) t bad))
    | inr (a, t, done) ↦ rw done (moved-IsRun r t run (holds (ok a) t done), gives a t done)
  ]

  module _ (laws : IsForest db) (now : ℕ) (res : MetaResource) where
    abbrev IsRoot : MetaNode → Run T → Type 0
    IsRoot node r = IsKnownRoot db node r.work.forest

    lookup-IsRoot :
        (b : String) (nodes : Dict MetaNode) (node : MetaNode) (s : T)
        → All (λ (e : String × MetaNode). IsKnownRoot db e.1 s) nodes
        → lookup b nodes ≡ some node
        → IsKnownRoot db node s
    unfolding lookup
    lookup-IsRoot b [] node s h e = absurd (ground arith)
    lookup-IsRoot b ((name, n) ∷ nodes) node s (root, h) e = elim (Bool-cases (str_eq name b)) [
      | inl here ↦ let it : n ≡ node = ground arith in subst (λ x. IsKnownRoot db x s) it root
      | inr other ↦ lookup-IsRoot b nodes node s h (ground arith)
    ]

    insert-IsRoot :
        (b : String) (node : MetaNode) (nodes : Dict MetaNode) (s : T)
        → IsKnownRoot db node s
        → All (λ (e : String × MetaNode). IsKnownRoot db e.1 s) nodes
        → All (λ (e : String × MetaNode). IsKnownRoot db e.1 s) (insert b node nodes)
    unfolding insert
    insert-IsRoot b node [] s root h = (root, tt)
    insert-IsRoot b node ((name, n) ∷ nodes) s root (first, h) = elim (Bool-cases (str_eq name b)) [
      | inl here ↦ rw here (root, h)
      | inr other ↦ rw other (first, insert-IsRoot b node nodes s root h)
    ]

    remember : String → MetaNode → Exec (Run T) ScanFailure MetaNode
    remember b node r = (ok node, record r { bucket_nodes = insert b node r.bucket_nodes })

    make_bucket : String → Exec (Run T) ScanFailure MetaNode
    unfolding remember
    make_bucket b =
        statement (upsert_node db res none "bucket" b b (some (("bucket", scalar (text b)) ∷ [])))
        >>= remember b

    bucket_node-absent :
        (b : String) (r : Run T)
        → lookup b r.bucket_nodes ≡ none
        → bucket_node db now res b r ≡ make_bucket b r
    unfolding bucket_node make_bucket
    bucket_node-absent b r absent = ground arith

    make_bucket-IsGood : (b : String) (r : Run T) → IsRun r → IsGood IsRoot (make_bucket b r)
    unfolding make_bucket
    make_bucket-IsGood b r run =
        let attrs = some (("bucket", scalar (text b)) ∷ []) in
        bind-IsGood IsRoot IsRoot (statement (upsert_node db res none "bucket" b b attrs) r)
          (remember b)
          (statement-IsGood IsRoot (upsert_node db res none "bucket" b b attrs) r run
            (λ x t h.
              Grows-Holds db r.work.forest t (
                upsert_node-Grows db laws res none "bucket" b b attrs r.work.forest t x run.0 tt h))
            (λ n t h. upsert_root db laws res b attrs r.work.forest t n h))
          (λ node r' run' root.
            ((run'.0, insert-IsRoot b node r'.bucket_nodes r'.work.forest root run'.1), root))

    bucket_node-IsGood :
        (b : String) (r : Run T) → IsRun r → IsGood IsRoot (bucket_node db now res b r)
    unfolding bucket_node
    bucket_node-IsGood b r run = elim (Option-cases (lookup b r.bucket_nodes)) [
      | inr (node, known) ↦
          let it : bucket_node db now res b r ≡ (ok node, r) = ground arith in
          subst (IsGood IsRoot) (sym it)
            (run, lookup-IsRoot b r.bucket_nodes node r.work.forest run.1 known)
      | inl absent ↦
          subst (IsGood IsRoot) (sym (bucket_node-absent b r absent)) (make_bucket-IsGood b r run)
    ]

    reset-Holds :
        (node : MetaNode) (status : ScanStatus) (s t : T) (x : Result DbError Unit)
        → IsTree db s
        → reset_node_state db now node status s ≡ (x, t)
        → Holds db s t
    unfolding reset_node_state
    reset-Holds node status s t x tree h =
        status-Holds db laws node.id _ s t x (λ m. refl) (λ m. refl) (λ m. refl) (λ m. refl) tree h

    finalize-Holds :
        (node : MetaNode) (status : ScanStatus) (count size : ℤ) (message : String) (s t : T)
        (x : Result DbError Unit)
        → IsTree db s
        → finalize_node_state db now node status count size message s ≡ (x, t)
        → Holds db s t
    unfolding finalize_node_state
    finalize-Holds node status count size message s t x tree h =
        status-Holds db laws node.id _ s t x (λ m. refl) (λ m. refl) (λ m. refl) (λ m. refl) tree h

    -- the node of a bucket is known still
    abbrev Known : {A : Type 0} → MetaNode → A → Run T → Type 0
    Known node a r = IsKnownRoot db node r.work.forest

    root-IsGood :
        (node : MetaNode) (m : Exec T DbError Unit) (r : Run T)
        → IsRun r
        → IsKnownRoot db node r.work.forest
        → ((x : Result DbError Unit) (t : T) → m r.work.forest ≡ (x, t) → Holds db r.work.forest t)
        → IsGood (Known node) (statement m r)
    root-IsGood node m r run root holds =
        statement-IsGood (Known node) m r run holds (λ a t h. (holds (ok a) t h).1 node root)

    count_bucket : String → Exec (Run T) ScanFailure Unit
    count_bucket b r =
        (ok tt, record r { processed = b ∷ r.processed; total_buckets = suc r.total_buckets })

    clear_steps : String → MetaNode → Exec (Run T) ScanFailure Unit
    unfolding count_bucket
    clear_steps b node = statement (reset_node_state db now node scanning) >>= λ _.
        statement (hard_delete_descendant_nodes db node) >>= λ _.
        statement (hard_delete_items_by_node db node.id) >>= λ _. count_bucket b

    clear_bucket-fresh :
        (b : String) (node : MetaNode) (r : Run T)
        → contains_name b r.processed ≡ false
        → clear_bucket db now res b node r ≡ clear_steps b node r
    unfolding clear_bucket clear_steps count_bucket
    clear_bucket-fresh b node r fresh = ground arith

    clear_steps-IsGood :
        (b : String) (node : MetaNode) (r : Run T)
        → IsRun r
        → IsKnownRoot db node r.work.forest
        → IsGood (Known node) (clear_steps b node r)
    unfolding clear_steps count_bucket
    clear_steps-IsGood b node r run root =
        bind-IsGood (Known node) (Known node) (statement (reset_node_state db now node scanning) r)
          _
          (root-IsGood node (reset_node_state db now node scanning) r run root
            (λ x t. reset-Holds node scanning r.work.forest t x run.0))
          (λ _ r1 run1 root1.
            bind-IsGood (Known node) (Known node)
              (statement (hard_delete_descendant_nodes db node) r1) _
              (root-IsGood node (hard_delete_descendant_nodes db node) r1 run1 root1
                (λ x t. descendants-Holds db laws node r1.work.forest t x run1.0 root1))
              (λ _ r2 run2 root2.
                bind-IsGood (Known node) (Known node)
                  (statement (hard_delete_items_by_node db node.id) r2) (λ _. count_bucket b)
                  (root-IsGood node (hard_delete_items_by_node db node.id) r2 run2 root2
                    (λ x t. items-Holds db laws node.id r2.work.forest t x run2.0))
                  (λ _ r3 run3 root3. (run3, root3))))

    clear_bucket-IsGood :
        (b : String) (node : MetaNode) (r : Run T)
        → IsRun r
        → IsKnownRoot db node r.work.forest
        → IsGood (Known node) (clear_bucket db now res b node r)
    unfolding clear_bucket
    clear_bucket-IsGood b node r run root = elim (Bool-cases (contains_name b r.processed)) [
      | inl done ↦
          let it : clear_bucket db now res b node r ≡ (ok tt, r) = ground arith in
          subst (IsGood (Known node)) (sym it) (run, root)
      | inr fresh ↦
          subst (IsGood (Known node)) (sym (clear_bucket-fresh b node r fresh))
            (clear_steps-IsGood b node r run root)
    ]

    persisted-IsRun :
        (node : MetaNode) (metas : List ObjectMetadata) (r : Run T) (w : Work T)
        (x : Result DbError ℕ)
        → IsRun r
        → IsKnownRoot db node r.work.forest
        → persist_object_metas db res node metas r.work ≡ (x, w)
        → IsRun (record r { work = w })
    persisted-IsRun node metas r w x run root h = moved-IsRun r w.forest run (
        Grows-Holds db r.work.forest w.forest
          (persist_object_metas-Grows db laws res node metas r.work w x run.0 root.known h))

    write_metas-IsGood :
        (node : MetaNode) (metas : List ObjectMetadata) (r : Run T)
        → IsRun r
        → IsKnownRoot db node r.work.forest
        → IsGood Anything (write_metas db now res node metas r)
    unfolding write_metas
    write_metas-IsGood node metas r run root =
        elim (Exec-cases (persist_object_metas db res node metas r.work)) [
          | inl (e, w, bad) ↦
              let it : write_metas db now res node metas r ≡ (ok tt, record r { work = w }) =
                ground arith in
              subst (IsGood Anything) (sym it)
                (persisted-IsRun node metas r w (err e) run root bad, tt)
          | inr (n, w, done) ↦
              let it : write_metas db now res node metas r
                  ≡ (ok tt, record r { work = w; total_objects = r.total_objects + n }) =
                ground arith in
              subst (IsGood Anything) (sym it)
                (persisted-IsRun node metas r w (ok n) run root done, tt)
        ]

    scan_metas-IsGood :
        (metas : List ObjectMetadata) (r : Run T)
        → IsRun r
        → IsGood Anything (scan_metas db now res metas r)
    unfolding scan_metas
    scan_metas-IsGood [] r run = (run, tt)
    scan_metas-IsGood (meta ∷ metas) r run = elim (Bool-cases (is_empty meta.bucket_name)) [
      | inl bare ↦
          let it : (scan_metas db now res (meta ∷ metas) r) ≡ (ok tt, r) = ground arith in
          subst (IsGood Anything) (sym it) (run, tt)
      | inr named ↦ rw named (
          bind-IsGood IsRoot Anything (bucket_node db now res meta.bucket_name r) _
            (bucket_node-IsGood meta.bucket_name r run)
            (λ node r1 run1 root1.
              bind-IsGood (Known node) Anything (clear_bucket db now res meta.bucket_name node r1) _
                (clear_bucket-IsGood meta.bucket_name node r1 run1 root1)
                (λ _ r2 run2 root2. write_metas-IsGood node (meta ∷ metas) r2 run2 root2)))
    ]

    scan_paths_step :
        (scanner : ObjectScanner) (path : String) (paths : List String)
        (metas : List ObjectMetadata) (r : Run T)
        → scanner.scan path ≡ ok metas
        → scan_paths db now res scanner (path ∷ paths) r
          ≡ (scan_metas db now res metas >>= λ _. scan_paths db now res scanner paths) r
    unfolding scan_paths
    scan_paths_step scanner path paths metas r done = ground arith

    scan_paths-IsGood :
        (scanner : ObjectScanner) (paths : List String) (r : Run T)
        → IsRun r
        → IsGood Anything (scan_paths db now res scanner paths r)
    unfolding scan_paths
    scan_paths-IsGood scanner [] r run = (run, tt)
    scan_paths-IsGood scanner (path ∷ paths) r run = elim (Result-cases (scanner.scan path)) [
      | inl (panicked, bad) ↦
          let it : scan_paths db now res scanner (path ∷ paths) r ≡ (err panic, r) = ground arith in
          subst (IsGood Anything) (sym it) run
      | inl (not_allowed b, refused) ↦
          let it : scan_paths db now res scanner (path ∷ paths) r
              ≡ scan_paths db now res scanner paths r =
            ground arith in
          subst (IsGood Anything) (sym it) (scan_paths-IsGood scanner paths r run)
      | inr (metas, done) ↦
          subst (IsGood Anything) (sym (scan_paths_step scanner path paths metas r done)) (
            bind-IsGood Anything Anything (scan_metas db now res metas r)
              (λ _. scan_paths db now res scanner paths) (scan_metas-IsGood metas r run)
              (λ _ r1 run1 _. scan_paths-IsGood scanner paths r1 run1))
    ]

    finalize-IsGood :
        (node : MetaNode) (count size : ℤ) (r : Run T)
        → IsRun r
        → IsGood Anything (statement (finalize_node_state db now node scanned count size "") r)
    finalize-IsGood node count size r run =
        statement-IsGood Anything (finalize_node_state db now node scanned count size "") r run
          (λ x t. finalize-Holds node scanned count size "" r.work.forest t x run.0) (λ a t h. tt)

    finalize_stats-IsGood :
        (stats : Stats) (r : Run T) → IsRun r → IsGood Anything (finalize_stats db now res stats r)
    unfolding finalize_stats
    finalize_stats-IsGood [] r run = (run, tt)
    finalize_stats-IsGood (a ∷ stats) r run =
        bind-IsGood Anything Anything
          (statement (finalize_node_state db now a.node scanned a.item_count a.total_size "") r) _
          (finalize-IsGood a.node a.item_count a.total_size r run)
          (λ _ r1 run1 _. finalize_stats-IsGood stats r1 run1)

    finalize_buckets_step :
        (b : String) (node : MetaNode) (nodes : Dict MetaNode) (r : Run T)
        → is_some (find_aggregate node.id r.work.stats) ≡ false
        → finalize_buckets db now res ((b, node) ∷ nodes) r
          ≡ (statement (finalize_node_state db now node scanned (pos 0) (pos 0) "") >>= λ _.
                finalize_buckets db now res nodes)
              r
    unfolding finalize_buckets
    finalize_buckets_step b node nodes r bare = ground arith

    finalize_buckets-IsGood :
        (nodes : Dict MetaNode) (r : Run T)
        → IsRun r
        → IsGood Anything (finalize_buckets db now res nodes r)
    unfolding finalize_buckets
    finalize_buckets-IsGood [] r run = (run, tt)
    finalize_buckets-IsGood ((b, node) ∷ nodes) r run =
        elim (Bool-cases (is_some (find_aggregate node.id r.work.stats))) [
          | inl counted ↦
              let it : finalize_buckets db now res ((b, node) ∷ nodes) r
                  ≡ finalize_buckets db now res nodes r =
                ground arith in
              subst (IsGood Anything) (sym it) (finalize_buckets-IsGood nodes r run)
          | inr bare ↦ subst (IsGood Anything) (sym (finalize_buckets_step b node nodes r bare)) (
              bind-IsGood Anything Anything
                (statement (finalize_node_state db now node scanned (pos 0) (pos 0) "") r)
                (λ _. finalize_buckets db now res nodes)
                (finalize-IsGood node (pos 0) (pos 0) r run)
                (λ _ r1 run1 _. finalize_buckets-IsGood nodes r1 run1))
        ]

    scan-IsGood :
        (scanner : ObjectScanner) (paths : List String) (r : Run T)
        → IsRun r
        → IsGood Anything (scan_object_storage_paths db now res scanner paths r)
    unfolding scan_object_storage_paths
    scan-IsGood scanner paths r run =
        bind-IsGood Anything Anything (scan_paths db now res scanner paths r) _
          (scan_paths-IsGood scanner paths r run)
          (λ _ r1 run1 _.
            bind-IsGood Anything Anything (finalize_stats db now res r1.work.stats r1) _
              (finalize_stats-IsGood r1.work.stats r1 run1)
              (λ _ r2 run2 _. finalize_buckets-IsGood r2.bucket_nodes r2 run2))

    good-IsTree :
        {A : Type 0} (x : Result ScanFailure A × Run T)
        → IsGood Anything x
        → IsTree db x.1.work.forest
    good-IsTree (ok a, r) (run, _) = run.0
    good-IsTree (err e, r) run = run.0

    -- scanObjectStoragePaths, started on a tree, leaves a tree, whatever the scanner reports and
    -- whichever statement fails: roots have depth 1 and their key as their path, or none yet, and
    -- every other node is one deeper than its parent, has the parent's path with its own key
    -- behind it, or none yet, and a parent that has a path. The database meets its laws
    -- `IsForest`.
    pub scan_object_storage_paths-IsTree :
        (scanner : ObjectScanner) (paths : List String) (s : T)
        → IsTree db s
        → IsTree db (scan_object_storage_paths db now res scanner paths (start s)).1.work.forest
    scan_object_storage_paths-IsTree scanner paths s tree =
        good-IsTree (scan_object_storage_paths db now res scanner paths (start s))
          (scan-IsGood scanner paths (start s) (tree, tt))
