-- ===== src/Db.antt =====
-- The database behind GORM, which every service takes as a parameter.
pub mod Model
pub mod Effects
use addp.Common.{
  ℕ, ◌<◌, ◌≡◌, Bool, true, false, Option, none, some, List, Result, ok, err, All, ◌==◌,
  if◌then◌else◌,
}
use mathlib.Core.Option
use addp.Common.Int.{ℤ}

-- `gorm.ErrRecordNotFound`, or any other error of the driver.
pub data DbError : Type 0 where
  not_found : DbError
  failed : ℕ → DbError

-- The statements that the services issue on one table: `S` is the state of the table and `R` a
-- row. A statement that fails leaves the table as it was, so only its error comes back.
pub record Table (S R : Type 0) : Type 0 where
  -- the committed row under a primary key, as the laws see it
  pub at : S → ℕ → Option R
  -- db.First(&row, id)
  pub first : S → ℕ → Result DbError R
  -- db.Where(p).First(&row)
  pub first_where : S → (R → Bool) → Result DbError R
  -- db.Where(p).Offset(o).Limit(l).Find(&rows)
  pub find : S → (R → Bool) → ℤ → ℤ → Result DbError (List R)
  -- db.Create(&row), the row with the key that the database gave it
  pub create : S → R → Result DbError (R × S)
  -- db.Save(&row)
  pub save : S → R → Result DbError S
  -- db.Model(&row).Updates(columns): the columns of the row with the key
  pub update : S → ℕ → (R → R) → Result DbError S
  -- db.Delete(&R{}, id)
  pub delete : S → ℕ → Result DbError S
  -- db.Where(p).Delete(&R{})
  pub delete_where : S → (R → Bool) → Result DbError S

abbrev pub drop_if : {R : Type 0} → (R → Bool) → Option R → Option R
drop_if p none = none
drop_if p (some r) = if p r then none else some r

-- What GORM and PostgreSQL document of these statements. `key` is the primary key, `with_key` a
-- row with the key that it was given, and `clashes` holds of rows that share a unique column.
pub record IsTable {S R : Type 0} (t : Table S R) (key : R → ℕ) (with_key : ℕ → R → R)
    (clashes : R → R → Bool) : Type 0 where
  pub at_key : (s : S) (i : ℕ) (r : R) → t.at s i ≡ some r → key r ≡ i
  pub first_ok : (s : S) (i : ℕ) (r : R) → t.first s i ≡ ok r → t.at s i ≡ some r
  pub first_not_found : (s : S) (i : ℕ) → t.first s i ≡ err not_found → t.at s i ≡ none
  pub first_where_ok :
      (s : S) (p : R → Bool) (r : R)
      → t.first_where s p ≡ ok r
      → (t.at s (key r) ≡ some r) × (p r ≡ true)
  pub first_where_not_found :
      (s : S) (p : R → Bool)
      → t.first_where s p ≡ err not_found
      → (i : ℕ) (r : R) → t.at s i ≡ some r
      → p r ≡ false
  pub find_ok :
      (s : S) (p : R → Bool) (o l : ℤ) (rs : List R)
      → t.find s p o l ≡ ok rs
      → All (λ r. (t.at s (key r) ≡ some r) × (p r ≡ true)) rs
  pub create_row :
      (s : S) (r : R) (r' : R) (s' : S)
      → t.create s r ≡ ok (r', s')
      → (0 < key r') × (r' ≡ with_key (key r') r) × (t.at s (key r') ≡ none)
  pub create_at :
      (s : S) (r : R) (r' : R) (s' : S)
      → t.create s r ≡ ok (r', s')
      → (j : ℕ) → t.at s' j ≡ (if key r' == j then some r' else t.at s j)
  pub create_unique :
      (s : S) (r : R) (r' : R) (s' : S)
      → t.create s r ≡ ok (r', s')
      → (j : ℕ) (old : R) → t.at s j ≡ some old
      → clashes r' old ≡ false
  pub save_at :
      (s : S) (r old : R) (s' : S)
      → t.at s (key r) ≡ some old
      → t.save s r ≡ ok s'
      → (j : ℕ) → t.at s' j ≡ (if key r == j then some r else t.at s j)
  pub update_at :
      (s : S) (i : ℕ) (f : R → R) (s' : S)
      → ((r : R) → key (f r) ≡ key r)
      → t.update s i f ≡ ok s'
      → (j : ℕ) → t.at s' j ≡ (if i == j then Option.map f (t.at s j) else t.at s j)
  pub delete_at :
      (s : S) (i : ℕ) (s' : S)
      → t.delete s i ≡ ok s'
      → (j : ℕ) → t.at s' j ≡ (if i == j then none else t.at s j)
  pub delete_where_at :
      (s : S) (p : R → Bool) (s' : S)
      → t.delete_where s p ≡ ok s'
      → (j : ℕ) → t.at s' j ≡ drop_if p (t.at s j)
