-- ===== src/RateLimit/Examples.antt =====
-- The limiter's theorems at concrete calls, and runs.
use asber.Base.{Bool, List, Text, [], arith, codes, false, one_of, refl, some, true, ℕ, ◌∷◌, ◌≡◌}
use asber.RateLimit.{client_ip, allow, allow_local, counted, hops}
use asber.RateLimit.Window.{answers, allow_spec, sliding_window_is_exact}
use asber.RateLimit.Proxies.{client_ip_is_last_untrusted}

-- Two calls a minute: the third is refused, and one more fits when the first is over a minute old.
abbrev calls : List ℕ
calls = 0 ∷ 20000 ∷ 50000 ∷ 60000 ∷ 60001 ∷ []

allow_local_run : answers allow_local 2 [] calls ≡ true ∷ true ∷ false ∷ false ∷ true ∷ []
unfolding allow_local
allow_local_run = refl

sliding_window_is_exact_example : answers allow_local 2 [] calls ≡ answers allow_spec 2 [] calls
sliding_window_is_exact_example = sliding_window_is_exact 2 calls (omega arith)

-- The proxies' own network.
abbrev own_network : Text → Bool
own_network a = one_of a (codes "10.0.0.1" ∷ codes "10.0.0.2" ∷ [])

abbrev forwarded : Text
forwarded = codes "6.6.6.6, 203.0.113.9, 10.0.0.2"

forwarded-hops : hops forwarded ≡ codes "6.6.6.6" ∷ codes "203.0.113.9" ∷ codes "10.0.0.2" ∷ []
unfolding hops
forwarded-hops = refl

client_ip_is_last_untrusted_example :
    client_ip own_network (some (codes "10.0.0.1")) forwarded ≡ codes "203.0.113.9"
client_ip_is_last_untrusted_example =
    client_ip_is_last_untrusted own_network (some (codes "10.0.0.1")) (codes "6.6.6.6" ∷ [])
      (codes "203.0.113.9") (codes "10.0.0.2" ∷ []) forwarded forwarded-hops refl refl

allow_by_redis : (allow (some (counted 3)) 0 2 []).0 ≡ false
unfolding allow
allow_by_redis = refl
