-- ===== src/Base/Decimal/Tests.antt =====
-- Numbers in base 10.
use novig_take_home.Base.{◌≡◌, refl, [], ◌∷◌, none, some}
use novig_take_home.Base.Int.{pos, negsuc}
use novig_take_home.Base.Decimal.{parse_int, format_int}

format_minus_120 : format_int (negsuc 119) ≡ b'-' ∷ b'1' ∷ b'2' ∷ b'0' ∷ []
unfolding format_int
format_minus_120 = refl

parse_plus_07 : parse_int (b'+' ∷ b'0' ∷ b'7' ∷ []) ≡ some (pos 7)
unfolding parse_int
parse_plus_07 = refl

parse_sign : parse_int (b'-' ∷ []) ≡ none
unfolding parse_int
parse_sign = refl

parse_space : parse_int (b' ' ∷ b'1' ∷ []) ≡ none
unfolding parse_int
parse_space = refl
