-- ===== src/Text/Decimal.antt =====
-- fmt.Sprintf("%d", n) of a uint
use addp.Common.{
  ℕ, zero, suc, ◌/◌, ◌%◌, String, ltb, true, false, ◌&&◌, ◌||◌, ◌≡◌, refl, ap, Bool, ◌∙◌, arith,
  inl, inr, Bool-cases,
}
use addp.Text.{is_empty}
use addp.Text.Inside.{lies_in, has_slash, has_slash-append, is_empty-append, lies_in-has_slash}
use addp.Common.Int.{ℤ, pos, negsuc}
use Prim.Native.String.{◌++◌}

abbrev digit : ℕ → String
digit zero = "0"
digit (suc zero) = "1"
digit (suc (suc zero)) = "2"
digit (suc (suc (suc zero))) = "3"
digit (suc (suc (suc (suc zero)))) = "4"
digit (suc (suc (suc (suc (suc zero))))) = "5"
digit (suc (suc (suc (suc (suc (suc zero)))))) = "6"
digit (suc (suc (suc (suc (suc (suc (suc zero))))))) = "7"
digit (suc (suc (suc (suc (suc (suc (suc (suc zero)))))))) = "8"
digit _ = "9"

show_within : ℕ → ℕ → String
show_within zero n = ""
show_within (suc fuel) n = elim (ltb n 10) [
  | true ↦ digit n
  | false ↦ show_within fuel (n / 10) ++ digit (n % 10)
]

unfoldable pub show : ℕ → String
unfolding show_within
show n = show_within (suc n) n

-- the same of an int64
unfoldable pub show_int : ℤ → String
unfolding show
show_int (pos n) = show n
show_int (negsuc n) = "-" ++ show (suc n)

digit_full : (n : ℕ) → is_empty (digit n) ≡ false
digit_full zero = refl
digit_full (suc zero) = refl
digit_full (suc (suc zero)) = refl
digit_full (suc (suc (suc zero))) = refl
digit_full (suc (suc (suc (suc zero)))) = refl
digit_full (suc (suc (suc (suc (suc zero))))) = refl
digit_full (suc (suc (suc (suc (suc (suc zero)))))) = refl
digit_full (suc (suc (suc (suc (suc (suc (suc zero))))))) = refl
digit_full (suc (suc (suc (suc (suc (suc (suc (suc zero)))))))) = refl
digit_full (suc (suc (suc (suc (suc (suc (suc (suc (suc n))))))))) = refl

both_full : (a b : Bool) → b ≡ false → (a && b) ≡ false
both_full true b h = h
both_full false b h = refl

neither : (a b : Bool) → a ≡ false → b ≡ false → (a || b) ≡ false
neither true b h k = h
neither false b h k = k

show_within_full : (fuel n : ℕ) → is_empty (show_within (suc fuel) n) ≡ false
unfolding show_within
show_within_full fuel n = elim (Bool-cases (ltb n 10)) [
  | inl small ↦
      let one : show_within (suc fuel) n ≡ digit n = ground arith in ap is_empty one ∙ digit_full n
  | inr large ↦
      let more : show_within (suc fuel) n ≡ show_within fuel (n / 10) ++ digit (n % 10) =
        ground arith in
      ap is_empty more
      ∙ is_empty-append (show_within fuel (n / 10)) (digit (n % 10))
      ∙ both_full (is_empty (show_within fuel (n / 10))) (is_empty (digit (n % 10)))
          (digit_full (n % 10))
]

-- A number has at least one digit.
pub show_full : (n : ℕ) → is_empty (show n) ≡ false
unfolding show
show_full n = show_within_full n n

digit_slash : (n : ℕ) → has_slash (digit n) ≡ false
unfolding has_slash
digit_slash zero = refl
digit_slash (suc zero) = refl
digit_slash (suc (suc zero)) = refl
digit_slash (suc (suc (suc zero))) = refl
digit_slash (suc (suc (suc (suc zero)))) = refl
digit_slash (suc (suc (suc (suc (suc zero))))) = refl
digit_slash (suc (suc (suc (suc (suc (suc zero)))))) = refl
digit_slash (suc (suc (suc (suc (suc (suc (suc zero))))))) = refl
digit_slash (suc (suc (suc (suc (suc (suc (suc (suc zero)))))))) = refl
digit_slash (suc (suc (suc (suc (suc (suc (suc (suc (suc n))))))))) = refl

show_within_slash : (fuel n : ℕ) → has_slash (show_within fuel n) ≡ false
unfolding show_within
show_within_slash zero n = unfold has_slash in refl
show_within_slash (suc fuel) n = elim (Bool-cases (ltb n 10)) [
  | inl small ↦
      let one : show_within (suc fuel) n ≡ digit n = ground arith in
      ap has_slash one ∙ digit_slash n
  | inr large ↦
      let more : show_within (suc fuel) n ≡ show_within fuel (n / 10) ++ digit (n % 10) =
        ground arith in
      ap has_slash more
      ∙ has_slash-append (show_within fuel (n / 10)) (digit (n % 10))
      ∙ neither (has_slash (show_within fuel (n / 10))) (has_slash (digit (n % 10)))
          (show_within_slash fuel (n / 10)) (digit_slash (n % 10))
]

-- A number has no slash, so it lies in no directory.
pub lies_in-show : (d : String) (n : ℕ) → lies_in d (show n) ≡ false
unfolding show
lies_in-show d n = elim (Bool-cases (lies_in d (show_within (suc n) n))) [
  | inr outside ↦ outside
  | inl inside ↦ absurd (
      ground
        (arith, lies_in-has_slash d (show_within (suc n) n) inside, show_within_slash (suc n) n))
]
