-- ===== src/Db/Effects.antt =====
-- What the laws of a table say of one write to its rows.
use addp.Common.{ℕ, ◌<◌, ◌≡◌, Bool, false, Option, none, some, ok, ◌==◌, if◌then◌else◌, arith}
use addp.Db.{Table, IsTable, drop_if}

pub drop_if-eq-some :
    {R : Type 0} (p : R → Bool) (o : Option R) {r : R}
    → drop_if p o ≡ some r
    → (o ≡ some r) × (p r ≡ false)
drop_if-eq-some p none h = ground arith
drop_if-eq-some p (some x) h = ground arith

module _ {S R : Type 0} (t : Table S R) (key : R → ℕ) where
  -- one new row under a fresh key
  pub record IsInserted (a : S) (r : R) (b : S) : Type 0 where
    pub positive : 0 < key r
    pub fresh : t.at a (key r) ≡ none
    pub rows : (j : ℕ) → t.at b j ≡ (if key r == j then some r else t.at a j)

  -- one row replaced
  pub record IsSaved (a : S) (old r : R) (b : S) : Type 0 where
    pub same_key : key r ≡ key old
    pub was : t.at a (key old) ≡ some old
    pub rows : (j : ℕ) → t.at b j ≡ (if key r == j then some r else t.at a j)

  -- one row gone
  pub record IsDeleted (a : S) (old : R) (b : S) : Type 0 where
    pub was : t.at a (key old) ≡ some old
    pub rows : (j : ℕ) → t.at b j ≡ (if key old == j then none else t.at a j)

  module _ {with_key : ℕ → R → R} {clashes : R → R → Bool}
      (laws : IsTable t key with_key clashes) where
    pub create-IsInserted :
        (a : S) (r r' : R) (b : S) → t.create a r ≡ ok (r', b) → IsInserted a r' b
    create-IsInserted a r r' b made = record {
      positive = (laws.create_row a r r' b made).0;
      fresh = (laws.create_row a r r' b made).2;
      rows = laws.create_at a r r' b made;
    }

    pub save-IsSaved :
        (a : S) (old r : R) (b : S)
        → key r ≡ key old
        → t.at a (key old) ≡ some old
        → t.save a r ≡ ok b
        → IsSaved a old r b
    save-IsSaved a old r b same was saved = record {
      same_key = same;
      was = was;
      rows = laws.save_at a r old b (rw same was) saved;
    }

    pub delete-IsDeleted :
        (a : S) (old : R) (b : S)
        → t.at a (key old) ≡ some old
        → t.delete a (key old) ≡ ok b
        → IsDeleted a old b
    delete-IsDeleted a old b was gone = record {
      was = was;
      rows = laws.delete_at a (key old) b gone;
    }
