-- ===== src/Meta/Store/Model/Chains.antt =====
-- Searches in memory, and the chains of parents under a write.
use addp.Common.{
  ℕ, zero, suc, ◌≤◌, ◌<◌, Bool, true, false, Option, some, List, [], ◌∷◌, ok, err, All, ◌≡◌, refl,
  sym, ap, ◌∙◌, arith, ◌==◌, ==_iff, ltb, if◌then◌else◌, inl, inr, Bool-cases, Option-cases,
}
use mathlib.Core.Path.{subst}
use mathlib.Core.Option
use addp.Db.{not_found, drop_if}
use addp.Meta.Models.{MetaNode}
use addp.Meta.Store.Model.{
  Trees, chain, node_at, rows_from, keep_row, first_row, put, changed, chain-some, node_at-some,
  tree_node_key, tree_node_parent,
}

module _ {R : Type 0} (at : ℕ → Option R) (key : R → ℕ)
    (keyed : (i : ℕ) (r : R) → at i ≡ some r → key r ≡ i) where
  pub rows_sound :
      (p : R → Bool) (n : ℕ) → All (λ r. (at (key r) ≡ some r) × (p r ≡ true)) (rows_from at p n)
  unfolding rows_from keep_row
  rows_sound p zero = tt
  rows_sound p (suc n) = elim (Option-cases (at (suc n))) [
    | inl gone ↦ rw gone (rows_sound p n)
    | inr (r, there) ↦ elim (Bool-cases (p r)) [
      | inr other ↦ rw (there, other) (rows_sound p n)
      | inl hit ↦ rw (there, hit) ((ap at (keyed (suc n) r there) ∙ there, hit), rows_sound p n)
    ]
  ]

  rows_complete :
      (p : R → Bool) (n : ℕ)
      → rows_from at p n ≡ []
      → (i : ℕ) (r : R) → 0 < i
      → i ≤ n
      → at i ≡ some r
      → p r ≡ false
  unfolding rows_from keep_row
  rows_complete p zero h i r positive le there = absurd (omega arith)
  rows_complete p (suc n) h i r positive le there = elim (Bool-cases (i == suc n)) [
    | inl here ↦ ground (arith, ==_iff i (suc n))
    | inr below ↦ elim (Option-cases (at (suc n))) [
      | inl gone ↦
          rows_complete p n (ground arith) i r positive (ground (arith, ==_iff i (suc n))) there
      | inr (x, held) ↦ elim (Bool-cases (p x)) [
        | inl hit ↦ absurd (ground arith)
        | inr other ↦
            rows_complete p n (ground arith) i r positive (ground (arith, ==_iff i (suc n))) there
      ]
    ]
  ]

  pub first_sound :
      (p : R → Bool) (n : ℕ) (r : R)
      → first_row (rows_from at p n) ≡ ok r
      → (at (key r) ≡ some r) × (p r ≡ true)
  first_sound p n r h = from (rows_from at p n) (rows_sound p n) h
    where
      from :
          (rs : List R)
          → All (λ x. (at (key x) ≡ some x) × (p x ≡ true)) rs
          → first_row rs ≡ ok r
          → (at (key r) ≡ some r) × (p r ≡ true)
      from [] all e = absurd (ground arith)
      from (x ∷ rs) (one, all) e =
          let it : x ≡ r = ground arith in subst (λ y. (at (key y) ≡ some y) × (p y ≡ true)) it one

  pub first_complete :
      (p : R → Bool) (n : ℕ)
      → first_row (rows_from at p n) ≡ err not_found
      → (i : ℕ) (r : R) → 0 < i
      → i ≤ n
      → at i ≡ some r
      → p r ≡ false
  first_complete p n h = rows_complete p n (from (rows_from at p n) h)
    where
      from : (rs : List R) → first_row rs ≡ err not_found → rs ≡ []
      from [] e = refl
      from (x ∷ rs) e = cc

-- a change that keeps the key and the parent
pub changed-eq :
    (f : MetaNode → MetaNode) (n : MetaNode)
    → (f n).id ≡ n.id
    → (f n).parent_node_id ≡ n.parent_node_id
    → changed f n ≡ f n
changed-eq f n same under = λ i. record (f n) { id = sym same i; parent_node_id = sym under i }

pub chain-put :
    (f : ℕ) (g : MetaNode → MetaNode) (i : ℕ) (m : MetaNode) (row : ℕ → Option MetaNode) (j : ℕ)
    → row i ≡ some m
    → chain f (put i (some (changed g (record m { id = i }))) row) j
      ≡ (if i == j then Option.map (changed g) (chain f row j) else chain f row j)
unfolding chain
chain-put zero g i m row j there = ground arith
chain-put (suc f) g i m row j there = elim (Bool-cases (i == j)) [
  | inl here ↦
      let same : i ≡ j = (==_iff i j).0 here in
      let held : row j ≡ some m = ap row (sym same) ∙ there in
      elim (Option-cases m.parent_node_id) [
        | inl top ↦ ground arith
        | inr (p, above) ↦ elim (Bool-cases (ltb p i)) [
          | inr wrong ↦ ground arith
          | inl below ↦ ground (arith, chain-put f g i m row p there, ==_iff i p)
        ]
      ]
  | inr other ↦ elim (Option-cases (row j)) [
    | inl gone ↦ ground arith
    | inr (n, held) ↦ elim (Option-cases n.parent_node_id) [
      | inl top ↦ ground arith
      | inr (p, above) ↦ ground (arith, chain-put f g i m row p there)
    ]
  ]
]

pub chain_drop :
    (f : ℕ) (s : Trees) (p : MetaNode → Bool) (keep : ℕ → Bool) (j : ℕ)
    → ((i : ℕ) (n : MetaNode) → keep i ≡ true → node_at s i ≡ some n → p n ≡ false)
    → ((i k : ℕ) (n : MetaNode)
        → keep i ≡ true
        → node_at s i ≡ some n
        → n.parent_node_id ≡ some k
        → keep k ≡ true)
    → keep j ≡ true
    → 0 < j
    → j ≤ s.node_count
    → j < f
    → chain f (λ i. drop_if p (node_at s i)) j ≡ node_at s j
unfolding chain
chain_drop zero s p keep j outside closed kept positive within fuel = absurd (omega arith)
chain_drop (suc f) s p keep j outside closed kept positive within fuel =
    elim (Option-cases (node_at s j)) [
      | inl gone ↦ ground arith
      | inr (n, there) ↦
          let stays = outside j n kept there in
          let key : n.id ≡ j = tree_node_key s j n there in
          let whole : record n { id = j } ≡ n = λ i. record n { id = sym key i } in
          elim (Option-cases n.parent_node_id) [
            | inl top ↦ ground arith
            | inr (k, above) ↦
                let (positive_j, within_j, held) = node_at-some s j n there in
                let (m, row, shape, parents) = chain-some j s.nodes j n held in
                let (first, below, seen) =
                  parents k (ap (λ x. x.parent_node_id) (sym shape) ∙ above) in
                let (q, at) = tree_node_parent s j k n there above in
                let rest =
                  chain_drop f s p keep k outside closed (closed j k n kept there above) first
                    (omega arith) (omega arith) in
                ground arith
          ]
    ]
