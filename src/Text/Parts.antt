-- ===== src/Text/Parts.antt =====
-- The parts of a path, and the directories that stand in it.
use addp.Common.{
  String, true, false, List, [], ◌∷◌, map, ◌≡◌, refl, sym, ap, ◌∙◌, arith, All, ==_iff,
  if◌then◌else◌, inl, inr, Bool-cases,
}
use Prim.Native.Char.{Char, code}
use Prim.Native.String.append
use text.Mathlib.TextEquality.{Char-path}
use addp.Text.{is_slash, split, join, before_first}

join-before_first :
    (c : Char) (p : String) (ps : List String)
    → join (before_first c (p ∷ ps)) ≡ String.◌∷◌ c (join (p ∷ ps))
unfolding join
join-before_first c p [] = refl
join-before_first c p (q ∷ ps) = append.cons c p (String.◌∷◌ "/" (join (q ∷ ps)))

-- the first part of a split, and the others
abbrev pub IsCons : List String → Type 0
IsCons ps = (p : String) × (qs : List String) × (ps ≡ p ∷ qs)

split-IsCons : (s : String) → IsCons (split s)
unfolding split
split-IsCons String.[] = ("", [], refl)
split-IsCons (String.◌∷◌ c s) = elim (Bool-cases (is_slash c)) [
  | inl slash ↦ ("", split s, ground arith)
  | inr other ↦ let (p, qs, e) = split-IsCons s in (String.◌∷◌ c p, qs, ground arith)
]

split_slash : (c : Char) (s : String) → is_slash c ≡ true → split (String.◌∷◌ c s) ≡ "" ∷ split s
unfolding split
split_slash c s h = ground arith

split_other :
    (c : Char) (s : String) → is_slash c ≡ false → split (String.◌∷◌ c s) ≡ before_first c (split s)
unfolding split
split_other c s h = ground arith

slash_is : (c : Char) → is_slash c ≡ true → c ≡ "/"
slash_is c h = Char-path c "/" ((==_iff (code c) b'/').0 h)

join_slash : (p : String) (ps : List String) → join ("" ∷ p ∷ ps) ≡ String.◌∷◌ "/" (join (p ∷ ps))
unfolding join
join_slash p ps = append.nil (String.◌∷◌ "/" (join (p ∷ ps)))

-- Joining the parts of a split gives the text back.
pub join-split : (s : String) → join (split s) ≡ s
unfolding split
join-split String.[] = unfold join in refl
join-split (String.◌∷◌ c s) =
    let (p, qs, e) = split-IsCons s in
    let back : join (p ∷ qs) ≡ s = ap join (sym e) ∙ join-split s in
    elim (Bool-cases (is_slash c)) [
      | inl slash ↦
          ap join (split_slash c s slash ∙ ap (λ l. "" ∷ l) e)
          ∙ join_slash p qs
          ∙ ap (String.◌∷◌ "/") back
          ∙ ap (λ d. String.◌∷◌ d s) (sym (slash_is c slash))
      | inr other ↦
          ap join (split_other c s other ∙ ap (before_first c) e)
          ∙ join-before_first c p qs
          ∙ ap (String.◌∷◌ c) back
    ]

-- parts[:i] for every i from 1 up to and without the number of parts
unfoldable pub inits : List String → List (List String)
inits [] = []
inits (p ∷ []) = []
inits (p ∷ q ∷ ps) = (p ∷ []) ∷ map (λ l. p ∷ l) (inits (q ∷ ps))

-- the text before each slash
unfoldable pub before_slashes : String → List String
before_slashes String.[] = []
before_slashes (String.◌∷◌ c s) =
    let rest = map (String.◌∷◌ c) (before_slashes s) in if is_slash c then "" ∷ rest else rest

inits-IsCons : (ps : List String) → All IsCons (inits ps)
unfolding inits
inits-IsCons [] = tt
inits-IsCons (p ∷ []) = tt
inits-IsCons (p ∷ q ∷ ps) = ((p, [], refl), longer (inits (q ∷ ps)))
  where
    longer : (ls : List (List String)) → All IsCons (map (λ l. p ∷ l) ls)
    longer [] = tt
    longer (l ∷ ls) = ((p, l, refl), longer ls)

map-join_slash :
    (ls : List (List String))
    → All IsCons ls
    → map join (map (λ l. "" ∷ l) ls) ≡ map (String.◌∷◌ "/") (map join ls)
map-join_slash [] h = refl
map-join_slash (l ∷ ls) ((p, qs, e), h) =
    let one : join ("" ∷ l) ≡ String.◌∷◌ "/" (join l) =
      ap (λ k. join ("" ∷ k)) e ∙ join_slash p qs ∙ ap (λ k. String.◌∷◌ "/" (join k)) (sym e) in
    cc (one, map-join_slash ls h)

map-join_other :
    (c : Char) (p : String) (ls : List (List String))
    → map join (map (λ l. String.◌∷◌ c p ∷ l) ls)
      ≡ map (String.◌∷◌ c) (map join (map (λ l. p ∷ l) ls))
map-join_other c p [] = refl
map-join_other c p (l ∷ ls) = cc (join-before_first c p l, map-join_other c p ls)

inits_other :
    (c : Char) (p : String) (qs : List String)
    → map join (inits (String.◌∷◌ c p ∷ qs)) ≡ map (String.◌∷◌ c) (map join (inits (p ∷ qs)))
unfolding inits
inits_other c p [] = refl
inits_other c p (q ∷ qs) = cc (join-before_first c p [], map-join_other c p (inits (q ∷ qs)))

before_slashes_slash :
    (c : Char) (s : String)
    → is_slash c ≡ true
    → before_slashes (String.◌∷◌ c s) ≡ "" ∷ map (String.◌∷◌ c) (before_slashes s)
unfolding before_slashes
before_slashes_slash c s h = ground arith

before_slashes_other :
    (c : Char) (s : String)
    → is_slash c ≡ false
    → before_slashes (String.◌∷◌ c s) ≡ map (String.◌∷◌ c) (before_slashes s)
unfolding before_slashes
before_slashes_other c s h = ground arith

inits_slash :
    (p : String) (qs : List String)
    → map join (inits ("" ∷ p ∷ qs)) ≡ "" ∷ map (String.◌∷◌ "/") (map join (inits (p ∷ qs)))
unfolding inits
inits_slash p qs =
    let one : join ("" ∷ []) ≡ "" = unfold join in refl in
    cc (one, map-join_slash (inits (p ∷ qs)) (inits-IsCons (p ∷ qs)))

-- The directories of a path, joined from its parts, are the texts before its slashes.
pub map-join-inits : (s : String) → map join (inits (split s)) ≡ before_slashes s
map-join-inits String.[] = unfold split inits before_slashes in refl
map-join-inits (String.◌∷◌ c s) =
    let (p, qs, e) = split-IsCons s in
    let back : map join (inits (p ∷ qs)) ≡ before_slashes s =
      ap (λ l. map join (inits l)) (sym e) ∙ map-join-inits s in
    elim (Bool-cases (is_slash c)) [
      | inl slash ↦
          ap (λ l. map join (inits l)) (split_slash c s slash ∙ ap (λ l. "" ∷ l) e)
          ∙ inits_slash p qs
          ∙ ap (λ l. "" ∷ map (String.◌∷◌ "/") l) back
          ∙ ap (λ d. "" ∷ map (String.◌∷◌ d) (before_slashes s)) (sym (slash_is c slash))
          ∙ sym (before_slashes_slash c s slash)
      | inr other ↦
          ap (λ l. map join (inits l)) (split_other c s other ∙ ap (before_first c) e)
          ∙ inits_other c p qs
          ∙ ap (map (String.◌∷◌ c)) back
          ∙ sym (before_slashes_other c s other)
    ]
