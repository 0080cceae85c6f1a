-- ===== src/Api/Examples.antt =====
-- Paging and patterns at concrete values.
use asber.Base.{ℕ, List, [], codes, drop, refl, replicate, some, ◌++◌, ◌∷◌, ◌≡◌}
use asber.Api.{windows_by_name, paginate, since, apply_page, bad_request, like_term, window_start}

abbrev three : List ℕ
three = 1 ∷ 2 ∷ 3 ∷ []

second_page : (paginate (λ (n : ℕ). n) (record { page = 2; page_size = 2 }) three).items ≡ 3 ∷ []
unfolding paginate apply_page
second_page = refl

week : window_start 1000000 (some (codes "7d")) ≡ since 395200
unfolding window_start windows_by_name
week = refl

other_window : window_start 1000000 (some (codes "2d")) ≡ bad_request
unfolding window_start windows_by_name
other_window = refl

-- A term of 199 letters and a percent sign is cut between the backslash and the sign, and the
-- backslash is left to escape the wildcard at the end of the pattern.
cut_in_escape : drop 200 (like_term (replicate 199 b'a' ++ b'%' ∷ [])) ≡ 92 ∷ b'%' ∷ []
unfolding like_term
cut_in_escape = refl
