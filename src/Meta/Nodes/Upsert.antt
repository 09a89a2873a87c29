-- ===== src/Meta/Nodes/Upsert.antt =====
-- What upsertNode leaves behind.
use addp.Common.{
  ℕ, String, true, false, Option, none, some, ok, ◌≡◌, refl, ap, ◌∙◌, arith, ◌==◌, ==_iff, eq_iff,
  if◌then◌else◌, inl, inr, Bool-cases,
}
use mathlib.Core.Path.{subst}
use addp.Common.Outcome.{Result-cases, Exec-cases}
use addp.Db.{not_found, failed}
use addp.Meta.Models.{JsonMap, MetaResource, MetaNode}
use addp.Meta.Store.{Forest, IsForest}
use addp.Meta.Nodes.{
  compose_node_path, node_depth, node_id, same_parent, is_node, new_node, full_name_of, place_node,
  is_stale, refresh, update_node, create_node, insert_node, refresh_node, upsert_node,
}

module _ {T : Type 0} (db : Forest T) where
  -- one node written, and nothing else
  pub record IsWritten (n : MetaNode) (s s' : T) : Type 0 where
    pub nodes : (j : ℕ) → db.node s' j ≡ (if n.id == j then some n else db.node s j)
    pub items : (j : ℕ) → db.item s' j ≡ db.item s j

  -- the node that the lookup finds, with the columns that the code computes
  pub record IsAsked (res : MetaResource) (parent : Option MetaNode)
      (node_type name full_name : String) (n : MetaNode) : Type 0 where
    pub is_it : is_node res parent node_type name n ≡ true
    pub depth : n.depth ≡ node_depth parent
    pub path : n.path ≡ compose_node_path n.id parent
    pub full : n.full_name ≡ full_name_of full_name name parent

  module _ (laws : IsForest db) where
    update_node-IsWritten :
        (id : ℕ) (f : MetaNode → MetaNode) (n : MetaNode) (s s' : T)
        → ((m : MetaNode) → (f m).id ≡ m.id)
        → ((m : MetaNode) → (f m).parent_node_id ≡ m.parent_node_id)
        → n.id ≡ id
        → db.node s id ≡ some n
        → update_node db id f s ≡ (ok tt, s')
        → IsWritten (f n) s s'
    unfolding update_node
    update_node-IsWritten id f n s s' same under key there h =
        elim (Result-cases (db.update_node s id f)) [
          | inl (e, bad) ↦ absurd (ground arith)
          | inr (t, done) ↦
              let it : t ≡ s' = ground arith in
              subst (IsWritten (f n) s) it record {
                nodes = λ j.
                    ground
                      (arith, laws.update_node_at s id f t same under done j, same n, ==_iff id j);
                items = laws.update_node_items s id f t done;
              }
        ]

    create_node-IsWritten :
        (n n' : MetaNode) (s s' : T)
        → create_node db n s ≡ (ok n', s')
        → IsWritten n' s s' × (n' ≡ record n { id = n'.id }) × (db.node s n'.id ≡ none)
    unfolding create_node
    create_node-IsWritten n n' s s' h = elim (Result-cases (db.create_node s n)) [
      | inl (e, bad) ↦ absurd (ground arith)
      | inr (r, done) ↦
          let made : db.create_node s n ≡ ok (n', s') = ground arith in
          let (positive, shape, fresh) = laws.create_node_row s n n' s' made in
          (
            record {
              nodes = laws.create_node_at s n n' s' made;
              items = laws.create_node_items s n n' s' made;
            },
            shape,
            fresh,
          )
    ]

    both-IsWritten :
        (n m : MetaNode) (s t u : T)
        → m.id ≡ n.id
        → IsWritten n s t
        → IsWritten m t u
        → IsWritten m s u
    both-IsWritten n m s t u same first second = record {
      nodes = λ j. ground (arith, first.nodes j, second.nodes j, same);
      items = λ j. second.items j ∙ first.items j;
    }

    same_parent_self : (o : Option ℕ) → same_parent o o ≡ true
    same_parent_self none = refl
    same_parent_self (some i) = (==_iff i i).1 refl

    new_node-is_node :
        (res : MetaResource) (parent : Option MetaNode) (node_type name full_name : String)
        (attrs : Option JsonMap) (id : ℕ)
        → is_node res parent node_type name
            (record (new_node res parent node_type name full_name attrs) { id = id })
          ≡ true
    unfolding is_node new_node
    new_node-is_node res parent node_type name full_name attrs id = ground (
      arith,
      ==_iff res.id res.id,
      ==_iff res.tenant_id res.tenant_id,
      eq_iff node_type node_type,
      eq_iff name name,
      same_parent_self (node_id parent),
    )

    place_node-IsAsked :
        (res : MetaResource) (parent : Option MetaNode) (node_type name full_name : String)
        (attrs : Option JsonMap) (m : MetaNode)
        → m ≡ record (new_node res parent node_type name full_name attrs) { id = m.id }
        → IsAsked res parent node_type name full_name (place_node m.id parent m)
    unfolding place_node new_node is_node
    place_node-IsAsked res parent node_type name full_name attrs m shape = record {
      is_it =
          ap (is_node res parent node_type name) shape
          ∙ new_node-is_node res parent node_type name full_name attrs m.id;
      depth = ap (λ n. n.depth) shape;
      path = refl;
      full = ap (λ n. full_name_of n.full_name n.name parent) shape;
    }

    insert_node_lem :
        (res : MetaResource) (parent : Option MetaNode) (node_type name full_name : String)
        (attrs : Option JsonMap)
        → (s s' : T) (n : MetaNode)
        → insert_node db res parent node_type name full_name attrs s ≡ (ok n, s')
        → IsWritten n s s' × IsAsked res parent node_type name full_name n × (db.node s n.id ≡ none)
    unfolding insert_node
    insert_node_lem res parent node_type name full_name attrs s s' n h =
        elim (Exec-cases (create_node db (new_node res parent node_type name full_name attrs) s)) [
          | inl (e, t, bad) ↦ absurd (ground arith)
          | inr (m, t, made) ↦
              let (written, shape, fresh) =
                create_node-IsWritten (new_node res parent node_type name full_name attrs) m s t
                  made in
              elim (Exec-cases (update_node db m.id (place_node m.id parent) t)) [
                | inl (e, u, bad) ↦ absurd (ground arith)
                | inr (x, u, placed) ↦
                    let it : (place_node m.id parent m ≡ n) × (u ≡ s') =
                      (ground arith, ground arith) in
                    let here : db.node t m.id ≡ some m =
                      ground (arith, written.nodes m.id, (==_iff m.id m.id).1 refl) in
                    let second =
                      update_node-IsWritten m.id (place_node m.id parent) m t u
                        (λ k. unfold place_node in refl) (λ k. unfold place_node in refl) refl here
                        placed in
                    let same : (place_node m.id parent m).id ≡ m.id = unfold place_node in refl in
                    let whole =
                      both-IsWritten m (place_node m.id parent m) s t u same written second in
                    subst
                      (λ k.
                        IsWritten k s s'
                        × IsAsked res parent node_type name full_name k
                        × (db.node s k.id ≡ none))
                      it.0
                      (
                        subst (IsWritten (place_node m.id parent m) s) it.1 whole,
                        place_node-IsAsked res parent node_type name full_name attrs m shape,
                        ap (db.node s) same ∙ fresh,
                      )
              ]
        ]

    refresh-IsAsked :
        (res : MetaResource) (node : MetaNode) (parent : Option MetaNode)
        (node_type name full_name : String) (attrs : Option JsonMap)
        → is_node res parent node_type name node ≡ true
        → IsAsked res parent node_type name full_name
            (refresh node parent (full_name_of full_name name parent) attrs node)
    unfolding refresh is_node
    refresh-IsAsked res node parent node_type name full_name attrs h = record {
      is_it = h;
      depth = ground (arith, ==_iff node.depth (node_depth parent));
      path = ground (arith, eq_iff node.path (compose_node_path node.id parent));
      full = ground (arith, eq_iff node.full_name (full_name_of full_name name parent));
    }

    fresh-IsAsked :
        (res : MetaResource) (node : MetaNode) (parent : Option MetaNode)
        (node_type name full_name : String) (attrs : Option JsonMap)
        → is_node res parent node_type name node ≡ true
        → is_stale node parent (full_name_of full_name name parent) attrs ≡ false
        → IsAsked res parent node_type name full_name node
    unfolding is_stale
    fresh-IsAsked res node parent node_type name full_name attrs h fresh = record {
      is_it = h;
      depth = ground (arith, ==_iff node.depth (node_depth parent));
      path = ground (arith, eq_iff node.path (compose_node_path node.id parent));
      full = ground (arith, eq_iff node.full_name (full_name_of full_name name parent));
    }

    self-IsWritten : (n : MetaNode) (s : T) → db.node s n.id ≡ some n → IsWritten n s s
    self-IsWritten n s h = record {
      nodes = λ j. ground (arith, h, ==_iff n.id j);
      items = λ j. refl;
    }

    refresh_node_lem :
        (res : MetaResource) (node : MetaNode) (parent : Option MetaNode)
        (node_type name full_name : String) (attrs : Option JsonMap)
        → (s s' : T) (n : MetaNode) → db.node s node.id ≡ some node
        → is_node res parent node_type name node ≡ true
        → refresh_node db node parent (full_name_of full_name name parent) attrs s ≡ (ok n, s')
        → IsWritten n s s' × IsAsked res parent node_type name full_name n × (n.id ≡ node.id)
    unfolding refresh_node
    refresh_node_lem res node parent node_type name full_name attrs s s' n there it h =
        let full = full_name_of full_name name parent in
        elim (Bool-cases (is_stale node parent full attrs)) [
          | inr fresh ↦
              let left : (node ≡ n) × (s ≡ s') = (ground arith, ground arith) in
              subst
                (λ k.
                  IsWritten k s s'
                  × IsAsked res parent node_type name full_name k
                  × (k.id ≡ node.id))
                left.0
                (
                  subst (IsWritten node s) left.1 (self-IsWritten node s there),
                  fresh-IsAsked res node parent node_type name full_name attrs it fresh,
                  refl,
                )
          | inl stale ↦
              elim (Exec-cases (update_node db node.id (refresh node parent full attrs) s)) [
                | inl (e, t, bad) ↦ absurd (ground arith)
                | inr (x, t, done) ↦
                    let left : (refresh node parent full attrs node ≡ n) × (t ≡ s') =
                      (ground arith, ground arith) in
                    subst
                      (λ k.
                        IsWritten k s s'
                        × IsAsked res parent node_type name full_name k
                        × (k.id ≡ node.id))
                      left.0
                      (
                        subst (IsWritten (refresh node parent full attrs node) s) left.1 (
                            update_node-IsWritten node.id (refresh node parent full attrs) node s t
                              (λ m. unfold refresh in refl) (λ m. unfold refresh in refl) refl there
                              done),
                        refresh-IsAsked res node parent node_type name full_name attrs it,
                        unfold refresh in refl,
                      )
              ]
        ]

    pub upsert_node-IsAsked :
        (res : MetaResource) (parent : Option MetaNode) (node_type name full_name : String)
        (attrs : Option JsonMap)
        → (s s' : T) (n : MetaNode)
        → upsert_node db res parent node_type name full_name attrs s ≡ (ok n, s')
        → IsWritten n s s'
          × IsAsked res parent node_type name full_name n
          × (db.node s n.id ≡ none
              → (i : ℕ) (m : MetaNode) → db.node s i ≡ some m
              → is_node res parent node_type name m ≡ false)
    unfolding upsert_node
    upsert_node-IsAsked res parent node_type name full_name attrs s s' n h =
        elim (Result-cases (db.first_node s (is_node res parent node_type name))) [
          | inl (not_found, absent) ↦
              let (written, placed, fresh) =
                insert_node_lem res parent node_type name full_name attrs s s' n (ground arith) in
              (
                written,
                placed,
                λ _. laws.first_node_not_found s (is_node res parent node_type name) absent,
              )
          | inl (failed e, bad) ↦ absurd (ground arith)
          | inr (node, found) ↦
              let (there, it) =
                laws.first_node_ok s (is_node res parent node_type name) node found in
              let (written, placed, same) =
                refresh_node_lem res node parent node_type name full_name attrs s s' n there it
                  (ground arith) in
              (written, placed, λ gone. absurd (ground (arith, gone, there, same)))
        ]
