-- ===== src/Meta/Store/Model/Laws.antt =====
-- The trees in memory meet the laws of a forest.
use addp.Common.{
  ℕ, zero, suc, ◌≤◌, ◌<◌, Bool, true, false, ◌&&◌, Option, none, some, List, [], ◌∷◌, Result, ok,
  All, ◌≡◌, refl, sym, ap, ◌∙◌, arith, ◌==◌, ==_iff, ltb, leb, is_some, if◌then◌else◌, inl, inr,
  Bool-cases, Option-cases,
}
use mathlib.Core.Path.{subst}
use mathlib.Core.Option
use addp.Db.Effects
use addp.Db.{DbError, drop_if}
use addp.Meta.Models.{MetaNode, MetaItem}
use addp.Meta.Store.{IsForest, or_zero}
use addp.Meta.Store.Model.{
  Trees, chain, node_at, item_at, rows_from, put, has_parent, changed, tree_memory, chain_fuel,
  chain-some, node_at-some, node_at_in, tree_node_key, tree_node_parent, is_some-some, chain_new,
  count_rows, group, all_nodes,
}
use addp.Meta.Store.Model.Chains.{
  rows_sound, first_sound, first_complete, changed-eq, chain-put, chain_drop,
}

item_key : (s : Trees) (i : ℕ) (x : MetaItem) → item_at s i ≡ some x → x.id ≡ i
unfolding item_at
item_key s i x h = elim (Option-cases (s.items i)) [
  | inl gone ↦ absurd (ground arith)
  | inr (y, there) ↦ let same : record y { id = i } ≡ x = ground arith in ap (λ z. z.id) (sym same)
]

item_within :
    (s : Trees) (i : ℕ) (x : MetaItem) → item_at s i ≡ some x → (0 < i) × (i ≤ s.item_count)
unfolding item_at
item_within s i x h = (ground arith, ground arith)

create_node_row :
    (s : Trees) (n n' : MetaNode) (s' : Trees)
    → tree_memory.create_node s n ≡ ok (n', s')
    → (0 < n'.id) × (n' ≡ record n { id = n'.id }) × (node_at s n'.id ≡ none)
unfolding tree_memory node_at
create_node_row s n n' s' h = elim (Bool-cases (has_parent s n.parent_node_id)) [
  | inr orphan ↦ absurd (ground arith)
  | inl held ↦
      let it : record n { id = suc s.node_count } ≡ n' = ground arith in
      subst (λ x. (0 < x.id) × (x ≡ record n { id = x.id }) × (node_at s x.id ≡ none)) it
        (omega arith, refl, ground arith)
]

created_at :
    (s : Trees) (n : MetaNode) (j : ℕ)
    → has_parent s n.parent_node_id ≡ true
    → node_at
        (record s {
          node_count = suc s.node_count;
          nodes = put (suc s.node_count) (some n) s.nodes;
        })
        j
      ≡ (if suc s.node_count == j then some (record n { id = suc s.node_count }) else node_at s j)
unfolding node_at has_parent chain
created_at s n j held = elim (Bool-cases (suc s.node_count == j)) [
  | inr other ↦
      ground (arith, ==_iff (suc s.node_count) j, chain_new (suc j) (suc s.node_count) n s.nodes j)
  | inl here ↦ elim (Option-cases n.parent_node_id) [
    | inl top ↦ ground (arith, ==_iff (suc s.node_count) j)
    | inr (p, above) ↦
        let seen : is_some (node_at s p) ≡ true = ground arith in
        let (q, at) = is_some-some (node_at s p) seen in
        let (positive, within, there) = node_at-some s p q at in
        let up : chain j (put (suc s.node_count) (some n) s.nodes) p ≡ some q =
          chain_new j (suc s.node_count) n s.nodes p (omega arith)
          ∙ chain_fuel j (suc p) s.nodes p (ground (arith, ==_iff (suc s.node_count) j))
              (omega arith)
          ∙ there in
        ground (arith, ==_iff (suc s.node_count) j)
  ]
]

create_node_at :
    (s : Trees) (n n' : MetaNode) (s' : Trees)
    → tree_memory.create_node s n ≡ ok (n', s')
    → (j : ℕ) → node_at s' j ≡ (if n'.id == j then some n' else node_at s j)
unfolding tree_memory
create_node_at s n n' s' h j = elim (Bool-cases (has_parent s n.parent_node_id)) [
  | inr orphan ↦ absurd (ground arith)
  | inl held ↦
      let node : record n { id = suc s.node_count } ≡ n' = ground arith in
      let left : record s {
        node_count = suc s.node_count;
        nodes = put (suc s.node_count) (some n) s.nodes;
      }
          ≡ s' =
        ground arith in
      subst (λ t. node_at t j ≡ (if n'.id == j then some n' else node_at s j)) left
        (subst
          (λ x.
            node_at
              (record s {
                node_count = suc s.node_count;
                nodes = put (suc s.node_count) (some n) s.nodes;
              })
              j
            ≡ (if x.id == j then some x else node_at s j))
          node (created_at s n j held))
]

updated_at :
    (s : Trees) (i : ℕ) (f : MetaNode → MetaNode) (n : MetaNode) (j : ℕ)
    → node_at s i ≡ some n
    → node_at (record s { nodes = put i (some (changed f n)) s.nodes }) j
      ≡ (if i == j then Option.map (changed f) (node_at s j) else node_at s j)
unfolding node_at
updated_at s i f n j at =
    let (positive, within, there) = node_at-some s i n at in
    let (m, row, shape, parents) = chain-some i s.nodes i n there in
    let step = chain-put (suc j) f i m s.nodes j row in
    let same : put i (some (changed f n)) s.nodes
        ≡ put i (some (changed f (record m { id = i }))) s.nodes =
      ap (λ x. put i (some (changed f x)) s.nodes) shape in
    let chains = ap (λ rows. chain (suc j) rows j) same ∙ step in ground arith

update_node_at :
    (s : Trees) (i : ℕ) (f : MetaNode → MetaNode) (s' : Trees)
    → ((n : MetaNode) → (f n).id ≡ n.id)
    → ((n : MetaNode) → (f n).parent_node_id ≡ n.parent_node_id)
    → tree_memory.update_node s i f ≡ ok s'
    → (j : ℕ) → node_at s' j ≡ (if i == j then Option.map f (node_at s j) else node_at s j)
unfolding tree_memory
update_node_at s i f s' same under h j = elim (Option-cases (node_at s i)) [
  | inl gone ↦ let left : s ≡ s' = ground arith in ground (arith, ==_iff i j)
  | inr (n, there) ↦
      let left : record s { nodes = put i (some (changed f n)) s.nodes } ≡ s' = ground arith in
      let step = updated_at s i f n j there in
      ground (arith, ==_iff i j, changed-eq f n (same n) (under n))
]

dropped_at :
    (s : Trees) (p : MetaNode → Bool) (j : ℕ) (n : MetaNode)
    → node_at (record s { nodes = λ i. drop_if p (node_at s i) }) j ≡ some n
    → (node_at s j ≡ some n) × (p n ≡ false)
dropped_at s p j n h =
    let (positive, within, there) =
      node_at-some (record s { nodes = λ i. drop_if p (node_at s i) }) j n h in
    let (m, row, shape, parents) = chain-some j (λ i. drop_if p (node_at s i)) j n there in
    let (at, left) = Effects.drop_if-eq-some p (node_at s j) row in
    let same : n ≡ m = shape ∙ (λ i. record m { id = sym (tree_node_key s j m at) i }) in
    (at ∙ ap (λ x. some x) (sym same), ap p same ∙ left)

kept_at :
    (s : Trees) (p : MetaNode → Bool) (keep : ℕ → Bool)
    → ((j : ℕ) (n : MetaNode) → keep j ≡ true → node_at s j ≡ some n → p n ≡ false)
    → ((j k : ℕ) (n : MetaNode)
        → keep j ≡ true
        → node_at s j ≡ some n
        → n.parent_node_id ≡ some k
        → keep k ≡ true)
    → (j : ℕ) → keep j ≡ true
    → node_at (record s { nodes = λ i. drop_if p (node_at s i) }) j ≡ node_at s j
kept_at s p keep outside closed j kept = elim (Bool-cases (ltb 0 j && leb j s.node_count)) [
  | inl within ↦
      node_at_in (record s { nodes = λ i. drop_if p (node_at s i) }) j (ground arith) (ground arith)
      ∙ chain_drop (suc j) s p keep j outside closed kept (ground arith) (ground arith)
          (omega arith)
  | inr beyond ↦ unfold node_at in ground arith
]

create_item_row :
    (s : Trees) (x x' : MetaItem) (s' : Trees)
    → tree_memory.create_item s x ≡ ok (x', s')
    → (0 < x'.id) × (x' ≡ record x { id = x'.id }) × (item_at s x'.id ≡ none)
unfolding tree_memory item_at
create_item_row s x x' s' h =
    let it : record x { id = suc s.item_count } ≡ x' = ground arith in
    subst (λ y. (0 < y.id) × (y ≡ record x { id = y.id }) × (item_at s y.id ≡ none)) it
      (omega arith, refl, ground arith)

create_item_at :
    (s : Trees) (x x' : MetaItem) (s' : Trees)
    → tree_memory.create_item s x ≡ ok (x', s')
    → (j : ℕ) → item_at s' j ≡ (if x'.id == j then some x' else item_at s j)
unfolding tree_memory item_at
create_item_at s x x' s' h j =
    let it : record x { id = suc s.item_count } ≡ x' = ground arith in
    let left : record s {
      item_count = suc s.item_count;
      items = put (suc s.item_count) (some x) s.items;
    }
        ≡ s' =
      ground arith in
    ground (arith, ==_iff (suc s.item_count) j)

update_item_at :
    (s : Trees) (i : ℕ) (f : MetaItem → MetaItem) (s' : Trees)
    → ((x : MetaItem) → (f x).id ≡ x.id)
    → tree_memory.update_item s i f ≡ ok s'
    → (j : ℕ) → item_at s' j ≡ (if i == j then Option.map f (item_at s j) else item_at s j)
unfolding tree_memory item_at
update_item_at s i f s' same h j =
    let left : record s { items = put i (Option.map f (item_at s i)) s.items } ≡ s' =
      ground arith in
    elim (Option-cases (s.items j)) [
      | inl gone ↦ ground (arith, ==_iff i j)
      | inr (x, there) ↦ ground (arith, ==_iff i j, same (record x { id = j }))
    ]

delete_items_at :
    (s : Trees) (p : MetaItem → Bool) (s' : Trees)
    → tree_memory.delete_items s p ≡ ok s'
    → (j : ℕ) → item_at s' j ≡ drop_if p (item_at s j)
unfolding tree_memory item_at
delete_items_at s p s' h j =
    let left : record s { items = λ i. drop_if p (item_at s i) } ≡ s' = ground arith in
    elim (Option-cases (s.items j)) [ inl gone ↦ ground arith | inr (x, there) ↦ ground arith ]

count_rows_mono :
    (p q : MetaNode → Bool) (ns : List MetaNode)
    → ((n : MetaNode) → p n ≡ true → q n ≡ true)
    → count_rows p ns ≤ count_rows q ns
unfolding count_rows
count_rows_mono p q [] h = omega arith
count_rows_mono p q (n ∷ ns) h = elim (Bool-cases (p n)) [
  | inl hit ↦ ground (arith, h n hit, count_rows_mono p q ns h)
  | inr other ↦ ground (arith, count_rows_mono p q ns h)
]

or_zero-group : (n : ℕ) → or_zero (group n) ≡ n
or_zero-group zero = refl
or_zero-group (suc n) = refl

counts_injective :
    (a b : ℕ → Option ℕ) → ◌≡◌ {A = Result DbError (ℕ → Option ℕ)} (ok a) (ok b) → a ≡ b
counts_injective a b h = cc

counts_mono :
    (s : Trees) (p q : MetaNode → Bool) (cp cq : ℕ → Option ℕ)
    → ((n : MetaNode) → p n ≡ true → q n ≡ true)
    → tree_memory.count_nodes s p ≡ ok cp
    → tree_memory.count_nodes s q ≡ ok cq
    → (i : ℕ) → or_zero (cp i) ≤ or_zero (cq i)
unfolding tree_memory
counts_mono s p q cp cq h ep eq i =
    let counted =
      λ (r : MetaNode → Bool) (j : ℕ). count_rows (λ n. r n && n.res_id == j) (all_nodes s) in
    let less =
      count_rows_mono (λ n. p n && n.res_id == i) (λ n. q n && n.res_id == i) (all_nodes s)
        (λ n both. ground (arith, h n)) in
    let left : or_zero (cp i) ≡ counted p i =
      ap (λ c. or_zero (c i)) (sym (counts_injective (λ j. group (counted p j)) cp ep))
      ∙ or_zero-group (counted p i) in
    let right : or_zero (cq i) ≡ counted q i =
      ap (λ c. or_zero (c i)) (sym (counts_injective (λ j. group (counted q j)) cq eq))
      ∙ or_zero-group (counted q i) in
    omega arith

-- The trees in memory meet every law of a forest.
pub tree_memory-IsForest : IsForest tree_memory
unfolding tree_memory
tree_memory-IsForest = record {
  node_key = tree_node_key;
  node_parent = tree_node_parent;
  first_node_ok =
      λ s p n h. first_sound (node_at s) (λ x. x.id) (tree_node_key s) p s.node_count n h;
  first_node_not_found = λ s p h i n at.
      let (positive, within, there) = node_at-some s i n at in
      first_complete (node_at s) (λ x. x.id) (tree_node_key s) p s.node_count h i n positive within
        at;
  find_nodes_ok = λ s p ns h.
      let it : rows_from (node_at s) p s.node_count ≡ ns = ground arith in
      subst (All (λ n. (node_at s n.id ≡ some n) × (p n ≡ true))) it
        (rows_sound (node_at s) (λ x. x.id) (tree_node_key s) p s.node_count);
  count_nodes_mono = counts_mono;
  create_node_row = create_node_row;
  create_node_at = create_node_at;
  create_node_items = λ s n n' s' h j. ground arith;
  update_node_at = update_node_at;
  update_node_items = λ s i f s' h j. ground arith;
  delete_nodes_left = λ s p s' h j n at.
      let left : record s { nodes = λ i. drop_if p (node_at s i) } ≡ s' = ground arith in
      dropped_at s p j n (ap (λ t. node_at t j) left ∙ at);
  delete_nodes_items = λ s p s' h j x at.
      let left : record s { nodes = λ i. drop_if p (node_at s i) } ≡ s' = ground arith in
      ap (λ t. item_at t j) left ∙ at;
  delete_nodes_kept = λ s p s' keep h outside closed j kept.
      let left : record s { nodes = λ i. drop_if p (node_at s i) } ≡ s' = ground arith in
      ap (λ t. node_at t j) (sym left) ∙ kept_at s p keep outside closed j kept;
  item_key = item_key;
  first_item_ok = λ s p x h. first_sound (item_at s) (λ y. y.id) (item_key s) p s.item_count x h;
  first_item_not_found = λ s p h i x at.
      let (positive, within) = item_within s i x at in
      first_complete (item_at s) (λ y. y.id) (item_key s) p s.item_count h i x positive within at;
  create_item_row = create_item_row;
  create_item_at = create_item_at;
  create_item_nodes = λ s x x' s' h j. ground arith;
  update_item_at = update_item_at;
  update_item_nodes = λ s i f s' h j. ground arith;
  delete_items_at = delete_items_at;
  delete_items_nodes = λ s p s' h j. ground arith;
}
