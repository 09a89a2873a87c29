-- ===== src/Text/Inside.antt =====
-- Which texts lie inside a directory.
use addp.Common.{
  ℕ, ◌+◌, String, Bool, true, false, ◌&&◌, ◌||◌, List, [], ◌∷◌, map, ◌≡◌, ◌↔◌, refl, sym, ap, ◌∙◌,
  arith, str_eq, eq_iff, ◌==◌, ==_iff, if◌then◌else◌, inl, inr, Bool-cases,
}
use Prim.Native.Char.{Char, code}
use Prim.Native.String.{◌++◌}
use Prim.Native.String.append
use text.Mathlib.TextEquality.{Char-path}
use text.Mathlib.TextLemmas.{head-eq_of_cons-eq, tail-eq_of_cons-eq, cons≢nil, nil≢cons}
use addp.Text.{is_slash, is_empty}
use addp.Text.Parts.{before_slashes}

-- the text begins with the directory and a slash
unfoldable pub lies_in : String → String → Bool
lies_in String.[] String.[] = false
lies_in String.[] (String.◌∷◌ c s) = is_slash c
lies_in (String.◌∷◌ e d) String.[] = false
lies_in (String.◌∷◌ e d) (String.◌∷◌ c s) =
    let rest = lies_in d s in if code e == code c then rest else false

pub lies_in_iff :
    (d s : String) → (lies_in d s ≡ true) ↔ ((r : String) × (s ≡ d ++ String.◌∷◌ "/" r))
unfolding lies_in
lies_in_iff String.[] String.[] =
    (λ h. absurd (ground arith), λ (r, e). absurd (nil≢cons (e ∙ append.nil (String.◌∷◌ "/" r))))
lies_in_iff String.[] (String.◌∷◌ c s) = (
  λ h. (
    s,
    ap (λ x. String.◌∷◌ x s) (Char-path c "/" ((==_iff (code c) b'/').0 h))
        ∙ sym (append.nil (String.◌∷◌ "/" s)),
  ),
  λ (r, e).
      let same : c ≡ "/" = head-eq_of_cons-eq (e ∙ append.nil (String.◌∷◌ "/" r)) in
      (==_iff (code c) b'/').1 (ap code same),
)
lies_in_iff (String.◌∷◌ e d) String.[] = (
  λ h. absurd (ground arith),
  λ (r, q). absurd (nil≢cons (q ∙ append.cons e d (String.◌∷◌ "/" r))),
)
lies_in_iff (String.◌∷◌ e d) (String.◌∷◌ c s) = (
  λ h.
      let head : code e ≡ code c = ground arith in
      let (r, q) = (lies_in_iff d s).0 (ground arith) in
      (
        r,
        ap (String.◌∷◌ c) q
            ∙ ap (λ x. String.◌∷◌ x (d ++ String.◌∷◌ "/" r)) (sym (Char-path e c head))
            ∙ sym (append.cons e d (String.◌∷◌ "/" r)),
      ),
  λ (r, q).
      let split : String.◌∷◌ c s ≡ String.◌∷◌ e (d ++ String.◌∷◌ "/" r) =
        q ∙ append.cons e d (String.◌∷◌ "/" r) in
      let head : code c ≡ code e = ap code (head-eq_of_cons-eq split) in
      let rest = (lies_in_iff d s).1 (r, tail-eq_of_cons-eq split) in ground arith,
)

eq_cons_nil : (c : Char) (x : String) → str_eq (String.◌∷◌ c x) "" ≡ false
eq_cons_nil c x = elim (Bool-cases (str_eq (String.◌∷◌ c x) "")) [
  | inl same ↦ absurd (cons≢nil ((eq_iff (String.◌∷◌ c x) "").0 same))
  | inr other ↦ other
]

eq_nil_cons : (c : Char) (x : String) → str_eq "" (String.◌∷◌ c x) ≡ false
eq_nil_cons c x = elim (Bool-cases (str_eq "" (String.◌∷◌ c x))) [
  | inl same ↦ absurd (nil≢cons ((eq_iff "" (String.◌∷◌ c x)).0 same))
  | inr other ↦ other
]

-- two texts that begin with a character each
eq_cons :
    (c e : Char) (x d : String)
    → str_eq (String.◌∷◌ c x) (String.◌∷◌ e d) ≡ (if code e == code c then str_eq x d else false)
eq_cons c e x d = elim (Bool-cases (str_eq (String.◌∷◌ c x) (String.◌∷◌ e d))) [
  | inl same ↦
      let whole = (eq_iff (String.◌∷◌ c x) (String.◌∷◌ e d)).0 same in
      let heads : code c ≡ code e = ap code (head-eq_of_cons-eq whole) in
      let tails : x ≡ d = tail-eq_of_cons-eq whole in ground (arith, eq_iff x d)
  | inr other ↦ elim (Bool-cases (code e == code c)) [
    | inr heads ↦ ground arith
    | inl heads ↦ elim (Bool-cases (str_eq x d)) [
      | inr tails ↦ ground arith
      | inl tails ↦
          let c_e : c ≡ e = Char-path c e (ground arith) in
          let whole : String.◌∷◌ c x ≡ String.◌∷◌ e d =
            ap (λ y. String.◌∷◌ y x) c_e ∙ ap (String.◌∷◌ e) ((eq_iff x d).0 tails) in
          ground (arith, (eq_iff (String.◌∷◌ c x) (String.◌∷◌ e d)).1 whole)
    ]
  ]
]

-- how often a name stands in a list
unfoldable pub occurrences : String → List String → ℕ
occurrences d [] = 0
occurrences d (x ∷ xs) = (if str_eq x d then 1 else 0) + occurrences d xs

occurrences_nil-map : (c : Char) (l : List String) → occurrences "" (map (String.◌∷◌ c) l) ≡ 0
unfolding occurrences
occurrences_nil-map c [] = refl
occurrences_nil-map c (x ∷ l) = ground (arith, eq_cons_nil c x, occurrences_nil-map c l)

occurrences_cons-map :
    (e c : Char) (d : String) (l : List String)
    → occurrences (String.◌∷◌ e d) (map (String.◌∷◌ c) l)
      ≡ (if code e == code c then occurrences d l else 0)
unfolding occurrences
occurrences_cons-map e c d [] = ground arith
occurrences_cons-map e c d (x ∷ l) = ground (arith, eq_cons c e x d, occurrences_cons-map e c d l)

-- Among the directories of a path, a directory stands once if the path lies in it, and else not.
pub occurrences-before_slashes :
    (d s : String) → occurrences d (before_slashes s) ≡ (if lies_in d s then 1 else 0)
unfolding lies_in before_slashes
occurrences-before_slashes String.[] String.[] = unfold occurrences in refl
occurrences-before_slashes (String.◌∷◌ e d) String.[] = unfold occurrences in refl
occurrences-before_slashes String.[] (String.◌∷◌ c s) =
    let one : occurrences "" ("" ∷ map (String.◌∷◌ c) (before_slashes s)) ≡ 1 =
      unfold occurrences in
      ground (arith, occurrences_nil-map c (before_slashes s), eq_iff "" "") in
    ground (arith, occurrences_nil-map c (before_slashes s))
occurrences-before_slashes (String.◌∷◌ e d) (String.◌∷◌ c s) =
    let skip : occurrences (String.◌∷◌ e d) ("" ∷ map (String.◌∷◌ c) (before_slashes s))
        ≡ occurrences (String.◌∷◌ e d) (map (String.◌∷◌ c) (before_slashes s)) =
      unfold occurrences in ground (arith, eq_nil_cons e d) in
    ground (arith, occurrences_cons-map e c d (before_slashes s), occurrences-before_slashes d s)

pub is_empty-append : (a b : String) → is_empty (a ++ b) ≡ (is_empty a && is_empty b)
is_empty-append String.[] b = ap is_empty (append.nil b)
is_empty-append (String.◌∷◌ c a) b = ap is_empty (append.cons c a b)

unfoldable pub has_slash : String → Bool
has_slash String.[] = false
has_slash (String.◌∷◌ c s) = is_slash c || has_slash s

pub has_slash-append : (a b : String) → has_slash (a ++ b) ≡ (has_slash a || has_slash b)
unfolding has_slash
has_slash-append String.[] b = ap has_slash (append.nil b)
has_slash-append (String.◌∷◌ c a) b =
    ap has_slash (append.cons c a b) ∙ ground (arith, has_slash-append a b)

pub lies_in-has_slash : (d s : String) → lies_in d s ≡ true → has_slash s ≡ true
unfolding lies_in has_slash
lies_in-has_slash String.[] String.[] h = h
lies_in-has_slash String.[] (String.◌∷◌ c s) h = ground arith
lies_in-has_slash (String.◌∷◌ e d) String.[] h = h
lies_in-has_slash (String.◌∷◌ e d) (String.◌∷◌ c s) h = ground (arith, lies_in-has_slash d s)
