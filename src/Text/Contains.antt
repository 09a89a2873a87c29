-- ===== src/Text/Contains.antt =====
-- strings.Contains(s, part)
use addp.Common.{String, Bool, ◌||◌}
use addp.Text.{has_prefix, is_empty}

unfoldable pub contains : String → String → Bool
unfolding has_prefix
contains part String.[] = is_empty part
contains part (String.◌∷◌ c s) = has_prefix part (String.◌∷◌ c s) || contains part s
