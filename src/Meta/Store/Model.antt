-- ===== src/Meta/Store/Model.antt =====
-- Nodes and items in memory, which meet the laws of a forest, for runs at concrete inputs. A node
-- is there as long as its chain of parents is: deleting a node takes its descendants with it.
mod Chains
pub mod Laws
use addp.Common.{
  ℕ, zero, suc, ◌≤◌, ◌<◌, ◌+◌, String, Bool, true, false, ◌&&◌, Option, none, some, List, [], ◌∷◌,
  Result, ok, err, All, ◌≡◌, refl, sym, ap, ◌∙◌, arith, ◌==◌, ==_iff, ltb, leb, is_some,
  if◌then◌else◌, inl, inr, Bool-cases, Option-cases,
}
use mathlib.Core.Path.{subst}
use mathlib.Core.Option
use addp.Db.{DbError, not_found, failed, drop_if}
use addp.Meta.Models.{MetaNode, MetaItem}
use addp.Meta.Store.{Forest, IsForest}

pub record Trees : Type 0 where
  pub node_count : ℕ
  pub nodes : ℕ → Option MetaNode
  pub item_count : ℕ
  pub items : ℕ → Option MetaItem

abbrev pub empty_trees : Trees
empty_trees = record { node_count = 0; nodes = λ i. none; item_count = 0; items = λ i. none }

-- the node under a key, with at most `fuel` nodes above it, whose keys are smaller
pub chain : ℕ → (ℕ → Option MetaNode) → ℕ → Option MetaNode
chain zero row i = none
chain (suc fuel) row i = elim (row i) [
  | none ↦ none
  | some n ↦ elim n.parent_node_id [
    | none ↦ some (record n { id = i })
    | some k ↦
        if ltb 0 k && ltb k i && is_some (chain fuel row k)
        then some (record n { id = i })
        else none
  ]
]

pub node_at : Trees → ℕ → Option MetaNode
unfolding chain
node_at s i = if ltb 0 i && leb i s.node_count then chain (suc i) s.nodes i else none

item_at : Trees → ℕ → Option MetaItem
item_at s i =
    if ltb 0 i && leb i s.item_count
    then elim (s.items i) [ none ↦ none | some x ↦ some (record x { id = i }) ]
    else none

-- the rows with a property, from the key `n` down
module _ {R : Type 0} (at : ℕ → Option R) (p : R → Bool) where
  pub keep_row : Option R → List R → List R
  keep_row none rest = rest
  keep_row (some r) rest = if p r then r ∷ rest else rest

  pub rows_from : ℕ → List R
  unfolding keep_row
  rows_from zero = []
  rows_from (suc n) = keep_row (at (suc n)) (rows_from n)

abbrev pub first_row : {R : Type 0} → List R → Result DbError R
first_row [] = err not_found
first_row (r ∷ rs) = ok r

abbrev pub put : {R : Type 0} → ℕ → Option R → (ℕ → Option R) → ℕ → Option R
put i r rows j = if i == j then r else rows j

-- a parent must be there
has_parent : Trees → Option ℕ → Bool
unfolding node_at
has_parent s none = true
has_parent s (some k) = is_some (node_at s k)

abbrev pub changed : (MetaNode → MetaNode) → MetaNode → MetaNode
changed f n = record (f n) { id = n.id; parent_node_id = n.parent_node_id }

count_rows : (MetaNode → Bool) → List MetaNode → ℕ
count_rows p [] = 0
count_rows p (n ∷ ns) = (if p n then 1 else 0) + count_rows p ns

abbrev group : ℕ → Option ℕ
group zero = none
group (suc n) = some (suc n)

-- all nodes that are there
all_nodes : Trees → List MetaNode
unfolding node_at rows_from
all_nodes s = rows_from (node_at s) (λ _. true) s.node_count

unfoldable pub tree_memory : Forest Trees
unfolding node_at item_at rows_from has_parent count_rows all_nodes
tree_memory = record {
  node = node_at;
  item = item_at;
  first_node = λ s p. first_row (rows_from (node_at s) p s.node_count);
  find_nodes = λ s p. ok (rows_from (node_at s) p s.node_count);
  count_nodes = λ s p. ok (λ i. group (count_rows (λ n. p n && n.res_id == i) (all_nodes s)));
  create_node = λ s n.
      let k = suc s.node_count in
      if has_parent s n.parent_node_id
      then ok (record n { id = k }, record s { node_count = k; nodes = put k (some n) s.nodes })
      else err (failed 23503);
  update_node = λ s i f. elim (node_at s i) [
    | none ↦ ok s
    | some n ↦ ok (record s { nodes = put i (some (changed f n)) s.nodes })
  ];
  delete_nodes = λ s p. ok (record s { nodes = λ j. drop_if p (node_at s j) });
  first_item = λ s p. first_row (rows_from (item_at s) p s.item_count);
  create_item = λ s x.
      let k = suc s.item_count in
      ok (record x { id = k }, record s { item_count = k; items = put k (some x) s.items });
  update_item = λ s i f. ok (record s { items = put i (Option.map f (item_at s i)) s.items });
  delete_items = λ s p. ok (record s { items = λ j. drop_if p (item_at s j) });
}

-- enough fuel
chain_fuel :
    (f g : ℕ) (row : ℕ → Option MetaNode) (i : ℕ) → i < f → i < g → chain f row i ≡ chain g row i
unfolding chain
chain_fuel zero g row i h k = absurd (omega arith)
chain_fuel (suc f) zero row i h k = absurd (omega arith)
chain_fuel (suc f) (suc g) row i h k = elim (Option-cases (row i)) [
  | inl gone ↦ ground arith
  | inr (n, there) ↦ elim (Option-cases n.parent_node_id) [
    | inl top ↦ ground arith
    | inr (p, under) ↦ elim (Bool-cases (ltb p i)) [
      | inr wrong ↦ ground arith
      | inl below ↦ ground (arith, chain_fuel f g row p (ground arith) (ground arith))
    ]
  ]
]

-- a node that is there: its row, and its parent
chain-some :
    (f : ℕ) (row : ℕ → Option MetaNode) (i : ℕ) (n : MetaNode)
    → chain (suc f) row i ≡ some n
    → (m : MetaNode) × (row i ≡ some m)
      × (n ≡ record m { id = i })
      × ((k : ℕ) → m.parent_node_id ≡ some k → (0 < k) × (k < i) × (is_some (chain f row k) ≡ true))
unfolding chain
chain-some f row i n h = elim (Option-cases (row i)) [
  | inl gone ↦ absurd (ground arith)
  | inr (m, there) ↦ elim (Option-cases m.parent_node_id) [
    | inl top ↦ (m, there, ground arith, λ k under. absurd (ground arith))
    | inr (p, above) ↦ elim (Bool-cases (ltb 0 p && ltb p i && is_some (chain f row p))) [
      | inr wrong ↦ absurd (ground arith)
      | inl right ↦ (m, there, ground arith, λ k under. (ground arith, ground arith, ground arith))
    ]
  ]
]

node_at-some :
    (s : Trees) (i : ℕ) (n : MetaNode)
    → node_at s i ≡ some n
    → (0 < i) × (i ≤ s.node_count) × (chain (suc i) s.nodes i ≡ some n)
unfolding node_at
node_at-some s i n h = (ground arith, ground arith, ground arith)

node_at_in : (s : Trees) (i : ℕ) → 0 < i → i ≤ s.node_count → node_at s i ≡ chain (suc i) s.nodes i
unfolding node_at
node_at_in s i h k = ground arith

tree_node_key : (s : Trees) (i : ℕ) (n : MetaNode) → node_at s i ≡ some n → n.id ≡ i
tree_node_key s i n h =
    let (positive, within, there) = node_at-some s i n h in
    let (m, row, shape, above) = chain-some i s.nodes i n there in ap (λ x. x.id) shape

is_some-some : {A : Type 0} (o : Option A) → is_some o ≡ true → (a : A) × (o ≡ some a)
is_some-some none h = absurd (ground arith)
is_some-some (some a) h = (a, refl)

tree_node_parent :
    (s : Trees) (i k : ℕ) (n : MetaNode)
    → node_at s i ≡ some n
    → n.parent_node_id ≡ some k
    → (p : MetaNode) × (node_at s k ≡ some p)
tree_node_parent s i k n h under =
    let (positive, within, there) = node_at-some s i n h in
    let (m, row, shape, above) = chain-some i s.nodes i n there in
    let (first, below, held) = above k (ap (λ x. x.parent_node_id) (sym shape) ∙ under) in
    let (p, at) = is_some-some (chain i s.nodes k) held in
    (
      p,
      node_at_in s k first (omega arith) ∙ chain_fuel (suc k) i s.nodes k (omega arith) below ∙ at,
    )

-- a row more, under a larger key
chain_new :
    (f k : ℕ) (n : MetaNode) (row : ℕ → Option MetaNode) (j : ℕ)
    → j < k
    → chain f (put k (some n) row) j ≡ chain f row j
unfolding chain
chain_new zero k n row j h = refl
chain_new (suc f) k n row j h = elim (Option-cases (row j)) [
  | inl gone ↦ ground (arith, ==_iff k j)
  | inr (m, there) ↦ elim (Option-cases m.parent_node_id) [
    | inl top ↦ ground (arith, ==_iff k j)
    | inr (p, above) ↦ elim (Bool-cases (ltb p j)) [
      | inr wrong ↦ ground (arith, ==_iff k j)
      | inl below ↦ ground (arith, ==_iff k j, chain_new f k n row p (ground arith))
    ]
  ]
]

-- The empty trees have no node.
pub empty_trees-none : (j : ℕ) → tree_memory.node empty_trees j ≡ none
unfolding tree_memory node_at
empty_trees-none j = ground arith
