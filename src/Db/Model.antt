-- ===== src/Db/Model.antt =====
-- A table in memory that meets the laws of a table, for runs at concrete inputs. Keys count up
-- from 1 and rows stand in a function of the key; only a unique column makes a statement fail.
use addp.Common.{
  ℕ, zero, suc, ◌≤◌, ◌≡◌, Bool, true, false, ◌&&◌, Option, none, some, List, [], ◌∷◌, Result, ok,
  err, All, ◌==◌, ==_iff, ltb, leb, if◌then◌else◌, take, drop, arith, refl, sym, ap, ◌∙◌,
  Option-cases, Bool-cases, inl, inr, All-take, All-drop,
}
use mathlib.Core.Path.{subst}
use mathlib.Core.Option
use addp.Common.Int.{ℤ, pos, negsuc}
use addp.Db.{DbError, not_found, failed, Table, IsTable, drop_if}

pub record Rows (R : Type 0) : Type 0 where
  pub count : ℕ
  pub row : ℕ → Option R

abbrev pub empty_rows : {R : Type 0} → Rows R
empty_rows = record { count = 0; row = λ i. none }

abbrev first_of : {R : Type 0} → List R → Result DbError R
first_of [] = err not_found
first_of (r ∷ rs) = ok r

abbrev is_nil : {R : Type 0} → List R → Bool
is_nil [] = true
is_nil (r ∷ rs) = false

-- what OFFSET and LIMIT leave of the matching rows; a negative number sets no bound
abbrev page : {R : Type 0} → ℤ → ℤ → List R → List R
page (pos o) (pos l) rs = take l (drop o rs)
page (pos o) (negsuc l) rs = drop o rs
page (negsuc o) (pos l) rs = take l rs
page (negsuc o) (negsuc l) rs = rs

All-page : {R : Type 0} (P : R → Type 0) (o l : ℤ) (rs : List R) → All P rs → All P (page o l rs)
All-page P (pos o) (pos l) rs h = All-take P l (drop o rs) (All-drop P o rs h)
All-page P (pos o) (negsuc l) rs h = All-drop P o rs h
All-page P (negsuc o) (pos l) rs h = All-take P l rs h
All-page P (negsuc o) (negsuc l) rs h = h

ok_injective : {A : Type 0} {a b : A} → ◌≡◌ {A = Result DbError A} (ok a) (ok b) → a ≡ b
ok_injective h = cc

-- a row in front of the others, if it is there and has the property
keep : {R : Type 0} → (R → Bool) → Option R → List R → List R
keep p none rest = rest
keep p (some r) rest = if p r then r ∷ rest else rest

All-keep :
    {R : Type 0} (P : R → Type 0) (p : R → Bool) (o : Option R) (rest : List R)
    → ((r : R) → o ≡ some r → p r ≡ true → P r)
    → All P rest
    → All P (keep p o rest)
unfolding keep
All-keep P p none rest h k = k
All-keep P p (some r) rest h k = All-keep_if (p r) (h r refl) k
  where
    All-keep_if : (b : Bool) → (b ≡ true → P r) → All P rest → All P (if b then r ∷ rest else rest)
    All-keep_if true f q = (f refl, q)
    All-keep_if false f q = q

module _ {R : Type 0} (key : R → ℕ) (with_key : ℕ → R → R) (clashes : R → R → Bool) where
  abbrev keyed : ℕ → Option R → Option R
  keyed i none = none
  keyed i (some r) = some (with_key i r)

  abbrev pub row_at : Rows R → ℕ → Option R
  row_at s i = if ltb 0 i && leb i s.count then keyed i (s.row i) else none

  -- the rows with a property, from the key `n` down
  search_from : Rows R → (R → Bool) → ℕ → List R
  unfolding keep
  search_from s p zero = []
  search_from s p (suc n) = keep p (row_at s (suc n)) (search_from s p n)

  abbrev put : ℕ → Option R → Rows R → Rows R
  put i r s = record s { row = λ j. if i == j then r else s.row j }

  insert : Rows R → R → Result DbError (R × Rows R)
  unfolding search_from
  insert s r =
      let k = suc s.count in
      if is_nil (search_from s (clashes (with_key k r)) s.count)
      then ok (with_key k r, record (put k (some r) s) { count = k })
      else err (failed 23505)

  unfoldable pub memory : Table (Rows R) R
  unfolding search_from insert
  memory = record {
    at = row_at;
    first = λ s i. elim (row_at s i) [ none ↦ err not_found | some r ↦ ok r ];
    first_where = λ s p. first_of (search_from s p s.count);
    find = λ s p o l. ok (page o l (search_from s p s.count));
    create = insert;
    save = λ s r. ok (put (key r) (some r) s);
    update = λ s i f. elim (row_at s i) [ none ↦ ok s | some r ↦ ok (put i (some (f r)) s) ];
    delete = λ s i. ok (put i none s);
    delete_where = λ s p.
        ok (record s {
          row = λ j. elim (drop_if p (row_at s j)) [ none ↦ none | some r ↦ s.row j ];
        });
  }

  module _ (key_with : (i : ℕ) (r : R) → key (with_key i r) ≡ i)
      (with_key_self : (r : R) → with_key (key r) r ≡ r) where
    row_at_key : (s : Rows R) (i : ℕ) (r : R) → row_at s i ≡ some r → key r ≡ i
    row_at_key s i r h = elim (Option-cases (s.row i)) [
      | inl gone ↦ ground arith
      | inr (x, there) ↦ ground (arith, key_with i x)
    ]

    search_sound :
        (s : Rows R) (p : R → Bool) (n : ℕ)
        → All (λ r. (row_at s (key r) ≡ some r) × (p r ≡ true)) (search_from s p n)
    unfolding search_from
    search_sound s p zero = tt
    search_sound s p (suc n) =
        All-keep (λ r. (row_at s (key r) ≡ some r) × (p r ≡ true)) p (row_at s (suc n))
          (search_from s p n) (λ r at hit. (ap (row_at s) (row_at_key s (suc n) r at) ∙ at, hit))
          (search_sound s p n)

    search_complete :
        (s : Rows R) (p : R → Bool) (n : ℕ)
        → search_from s p n ≡ []
        → (i : ℕ) (r : R) → i ≤ n
        → row_at s i ≡ some r
        → p r ≡ false
    unfolding search_from
    search_complete s p zero h i r le at = ground arith
    search_complete s p (suc n) h i r le at = elim (Bool-cases (i == suc n)) [
      | inl here ↦ ground (arith, ==_iff i (suc n))
      | inr below ↦ search_complete s p n (ground arith) i r (ground (arith, ==_iff i (suc n))) at
    ]

    first_of_cases : (rs : List R) (e : DbError) → first_of rs ≡ err e → rs ≡ []
    first_of_cases [] e h = refl
    first_of_cases (r ∷ rs) e h = cc

    first_of_ok : (P : R → Type 0) (rs : List R) (r : R) → All P rs → first_of rs ≡ ok r → P r
    first_of_ok P [] r h e = absurd (ground arith)
    first_of_ok P (x ∷ rs) r (p, h) e = let same : x ≡ r = ground arith in rw (← same) p

    update_row_at :
        (s : Rows R) (i : ℕ) (f : R → R) (s' : Rows R)
        → ((r : R) → key (f r) ≡ key r)
        → memory.update s i f ≡ ok s'
        → (j : ℕ) → row_at s' j ≡ (if i == j then Option.map f (row_at s j) else row_at s j)
    unfolding memory
    update_row_at s i f s' same h j = elim (Option-cases (row_at s i)) [
      | inl gone ↦ let left : s ≡ s' = ground arith in ground (arith, ==_iff i j)
      | inr (r, there) ↦
          let left : put i (some (f r)) s ≡ s' = ground arith in
          let key_f : key (f r) ≡ i = same r ∙ row_at_key s i r there in
          let whole : with_key i (f r) ≡ f r =
            ap (λ k. with_key k (f r)) (sym key_f) ∙ with_key_self (f r) in
          ground (arith, ==_iff i j)
    ]

    insert_unique :
        (s : Rows R) (r r' : R) (s' : Rows R)
        → insert s r ≡ ok (r', s')
        → search_from s (clashes r') s.count ≡ []
    unfolding insert
    insert_unique s r r' s' h = ground arith

    -- The table in memory meets every law.
    pub memory-IsTable : IsTable memory key with_key clashes
    unfolding memory
    memory-IsTable = record {
      at_key = row_at_key;
      first_ok = λ s i r h. ground arith;
      first_not_found = λ s i h. ground arith;
      first_where_ok = λ s p r h.
          first_of_ok (λ x. (row_at s (key x) ≡ some x) × (p x ≡ true)) (search_from s p s.count) r
            (search_sound s p s.count) h;
      first_where_not_found = λ s p h i r at.
          search_complete s p s.count (first_of_cases (search_from s p s.count) not_found h) i r
            (ground arith) at;
      find_ok = λ s p o l rs h.
          let found : page o l (search_from s p s.count) ≡ rs = ok_injective h in
          subst (All (λ r. (row_at s (key r) ≡ some r) × (p r ≡ true))) found (
            All-page (λ r. (row_at s (key r) ≡ some r) × (p r ≡ true)) o l (search_from s p s.count)
              (search_sound s p s.count));
      create_row = λ s r r' s' h. ground (arith, key_with (suc s.count) r);
      create_at = λ s r r' s' h j. ground (arith, key_with (suc s.count) r, ==_iff (key r') j);
      create_unique = λ s r r' s' h j old at.
          search_complete s (clashes r') s.count (insert_unique s r r' s' h) j old (ground arith)
            at;
      save_at = λ s r old s' was h j. ground (arith, with_key_self r, ==_iff (key r) j);
      update_at = update_row_at;
      delete_at = λ s i s' h j. ground arith;
      delete_where_at = λ s p s' h j. ground arith;
    }
