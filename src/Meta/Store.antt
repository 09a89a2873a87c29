-- ===== src/Meta/Store.antt =====
-- The database of the meta service (scripts/init-db.sql and GORM). Nodes and items share a state,
-- since deleting a node deletes what references it; resources and scan logs are tables apart.
pub mod Model
use addp.Common.{
  ℕ, ◌<◌, ◌≤◌, String, Bool, true, false, Option, none, some, List, Result, ok, err, All, ◌≡◌, ◌==◌,
  if◌then◌else◌,
}
use mathlib.Core.Option
use addp.Db
use addp.Db.{DbError, not_found}
use addp.Meta.Models.{MetaNode, MetaItem}

-- A statement that fails leaves the state as it was.
pub record Forest (T : Type 0) : Type 0 where
  -- the committed rows under their keys, as the laws see them
  pub node : T → ℕ → Option MetaNode
  pub item : T → ℕ → Option MetaItem
  -- db.Where(p).First(&node), db.Where(p).Find(&nodes), db.Create(&node)
  pub first_node : T → (MetaNode → Bool) → Result DbError MetaNode
  pub find_nodes : T → (MetaNode → Bool) → Result DbError (List MetaNode)
  pub create_node : T → MetaNode → Result DbError (MetaNode × T)
  -- db.Model(&node).Updates(columns): the columns of the row with the key
  pub update_node : T → ℕ → (MetaNode → MetaNode) → Result DbError T
  -- db.Unscoped().Where(p).Delete(&MetaNode{})
  pub delete_nodes : T → (MetaNode → Bool) → Result DbError T
  -- SELECT res_id, COUNT(*) … WHERE p GROUP BY res_id: the count of a group, if it has rows
  pub count_nodes : T → (MetaNode → Bool) → Result DbError (ℕ → Option ℕ)
  pub first_item : T → (MetaItem → Bool) → Result DbError MetaItem
  pub create_item : T → MetaItem → Result DbError (MetaItem × T)
  pub update_item : T → ℕ → (MetaItem → MetaItem) → Result DbError T
  pub delete_items : T → (MetaItem → Bool) → Result DbError T

-- an absent group counts no rows
abbrev pub or_zero : Option ℕ → ℕ
or_zero none = 0
or_zero (some n) = n

-- What PostgreSQL and GORM document of these statements.
pub record IsForest {T : Type 0} (db : Forest T) : Type 0 where
  pub node_key : (s : T) (i : ℕ) (n : MetaNode) → db.node s i ≡ some n → n.id ≡ i
  -- the parent that a node references is stored
  pub node_parent :
      (s : T) (i k : ℕ) (n : MetaNode)
      → db.node s i ≡ some n
      → n.parent_node_id ≡ some k
      → (p : MetaNode) × (db.node s k ≡ some p)
  pub first_node_ok :
      (s : T) (p : MetaNode → Bool) (n : MetaNode)
      → db.first_node s p ≡ ok n
      → (db.node s n.id ≡ some n) × (p n ≡ true)
  pub first_node_not_found :
      (s : T) (p : MetaNode → Bool)
      → db.first_node s p ≡ err not_found
      → (i : ℕ) (n : MetaNode) → db.node s i ≡ some n
      → p n ≡ false
  pub find_nodes_ok :
      (s : T) (p : MetaNode → Bool) (ns : List MetaNode)
      → db.find_nodes s p ≡ ok ns
      → All (λ n. (db.node s n.id ≡ some n) × (p n ≡ true)) ns
  -- a condition that is weaker counts at least as many rows
  pub count_nodes_mono :
      (s : T) (p q : MetaNode → Bool) (cp cq : ℕ → Option ℕ)
      → ((n : MetaNode) → p n ≡ true → q n ≡ true)
      → db.count_nodes s p ≡ ok cp
      → db.count_nodes s q ≡ ok cq
      → (i : ℕ) → or_zero (cp i) ≤ or_zero (cq i)
  pub create_node_row :
      (s : T) (n n' : MetaNode) (s' : T)
      → db.create_node s n ≡ ok (n', s')
      → (0 < n'.id) × (n' ≡ record n { id = n'.id }) × (db.node s n'.id ≡ none)
  pub create_node_at :
      (s : T) (n n' : MetaNode) (s' : T)
      → db.create_node s n ≡ ok (n', s')
      → (j : ℕ) → db.node s' j ≡ (if n'.id == j then some n' else db.node s j)
  pub create_node_items :
      (s : T) (n n' : MetaNode) (s' : T)
      → db.create_node s n ≡ ok (n', s')
      → (j : ℕ) → db.item s' j ≡ db.item s j
  pub update_node_at :
      (s : T) (i : ℕ) (f : MetaNode → MetaNode) (s' : T)
      → ((n : MetaNode) → (f n).id ≡ n.id)
      → ((n : MetaNode) → (f n).parent_node_id ≡ n.parent_node_id)
      → db.update_node s i f ≡ ok s'
      → (j : ℕ) → db.node s' j ≡ (if i == j then Option.map f (db.node s j) else db.node s j)
  pub update_node_items :
      (s : T) (i : ℕ) (f : MetaNode → MetaNode) (s' : T)
      → db.update_node s i f ≡ ok s'
      → (j : ℕ) → db.item s' j ≡ db.item s j
  -- what is left was there before and was not selected
  pub delete_nodes_left :
      (s : T) (p : MetaNode → Bool) (s' : T)
      → db.delete_nodes s p ≡ ok s'
      → (j : ℕ) (n : MetaNode) → db.node s' j ≡ some n
      → (db.node s j ≡ some n) × (p n ≡ false)
  pub delete_nodes_items :
      (s : T) (p : MetaNode → Bool) (s' : T)
      → db.delete_nodes s p ≡ ok s'
      → (j : ℕ) (x : MetaItem) → db.item s' j ≡ some x
      → db.item s j ≡ some x
  -- the cascade takes nothing of a set of nodes that has every parent of its members
  pub delete_nodes_kept :
      (s : T) (p : MetaNode → Bool) (s' : T) (keep : ℕ → Bool)
      → db.delete_nodes s p ≡ ok s'
      → ((j : ℕ) (n : MetaNode) → keep j ≡ true → db.node s j ≡ some n → p n ≡ false)
      → ((j k : ℕ) (n : MetaNode)
          → keep j ≡ true
          → db.node s j ≡ some n
          → n.parent_node_id ≡ some k
          → keep k ≡ true)
      → (j : ℕ) → keep j ≡ true
      → db.node s' j ≡ db.node s j
  pub item_key : (s : T) (i : ℕ) (x : MetaItem) → db.item s i ≡ some x → x.id ≡ i
  pub first_item_ok :
      (s : T) (p : MetaItem → Bool) (x : MetaItem)
      → db.first_item s p ≡ ok x
      → (db.item s x.id ≡ some x) × (p x ≡ true)
  pub first_item_not_found :
      (s : T) (p : MetaItem → Bool)
      → db.first_item s p ≡ err not_found
      → (i : ℕ) (x : MetaItem) → db.item s i ≡ some x
      → p x ≡ false
  pub create_item_row :
      (s : T) (x x' : MetaItem) (s' : T)
      → db.create_item s x ≡ ok (x', s')
      → (0 < x'.id) × (x' ≡ record x { id = x'.id }) × (db.item s x'.id ≡ none)
  pub create_item_at :
      (s : T) (x x' : MetaItem) (s' : T)
      → db.create_item s x ≡ ok (x', s')
      → (j : ℕ) → db.item s' j ≡ (if x'.id == j then some x' else db.item s j)
  pub create_item_nodes :
      (s : T) (x x' : MetaItem) (s' : T)
      → db.create_item s x ≡ ok (x', s')
      → (j : ℕ) → db.node s' j ≡ db.node s j
  pub update_item_at :
      (s : T) (i : ℕ) (f : MetaItem → MetaItem) (s' : T)
      → ((x : MetaItem) → (f x).id ≡ x.id)
      → db.update_item s i f ≡ ok s'
      → (j : ℕ) → db.item s' j ≡ (if i == j then Option.map f (db.item s j) else db.item s j)
  pub update_item_nodes :
      (s : T) (i : ℕ) (f : MetaItem → MetaItem) (s' : T)
      → db.update_item s i f ≡ ok s'
      → (j : ℕ) → db.node s' j ≡ db.node s j
  pub delete_items_at :
      (s : T) (p : MetaItem → Bool) (s' : T)
      → db.delete_items s p ≡ ok s'
      → (j : ℕ) → db.item s' j ≡ Db.drop_if p (db.item s j)
  pub delete_items_nodes :
      (s : T) (p : MetaItem → Bool) (s' : T)
      → db.delete_items s p ≡ ok s'
      → (j : ℕ) → db.node s' j ≡ db.node s j
