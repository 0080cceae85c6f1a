-- ===== src/RateLimit/Proxies.antt =====
-- Whose address `client_ip` returns.
use mathlib.Core.List.{reverse-append}
use asber.Base.{
  Bool, List, Option, Text, [], all, arith, false, if◌then◌else◌, refl, reverse, true, ◌++◌, ◌∷◌,
  ◌≡◌, Bool-cases, ap, inl, inr, ◌∙◌,
}
use asber.RateLimit.{client_ip, first_untrusted, hops, peer_of}

abbrev pub last_untrusted : (Text → Bool) → Text → List Text → Text
last_untrusted trusted found [] = found
last_untrusted trusted found (p ∷ ps) = last_untrusted trusted (if trusted p then found else p) ps

first-append :
    (trusted : Text → Bool) (peer : Text) (ps qs : List Text)
    → first_untrusted trusted peer (ps ++ qs)
      ≡ first_untrusted trusted (first_untrusted trusted peer qs) ps
unfolding first_untrusted
first-append trusted peer [] qs = refl
first-append trusted peer (p ∷ ps) qs = ground (arith, first-append trusted peer ps qs)

first-reverse :
    (trusted : Text → Bool) (peer : Text) (ps : List Text)
    → first_untrusted trusted peer (reverse ps) ≡ last_untrusted trusted peer ps
first-reverse trusted peer [] = unfold first_untrusted in refl
first-reverse trusted peer (p ∷ ps) =
    ap (first_untrusted trusted peer) (reverse-append (p ∷ []) ps)
    ∙ first-append trusted peer (reverse ps) (p ∷ [])
    ∙ first-reverse trusted (first_untrusted trusted peer (p ∷ [])) ps
    ∙ ap (λ t. last_untrusted trusted t ps) (unfold first_untrusted in refl)

last-append :
    (trusted : Text → Bool) (found : Text) (ps qs : List Text)
    → last_untrusted trusted found (ps ++ qs)
      ≡ last_untrusted trusted (last_untrusted trusted found ps) qs
last-append trusted found [] qs = refl
last-append trusted found (p ∷ ps) qs = last-append trusted (if trusted p then found else p) ps qs

last_trusted :
    (trusted : Text → Bool) (found : Text) (ps : List Text)
    → all trusted ps ≡ true
    → last_untrusted trusted found ps ≡ found
last_trusted trusted found [] h = refl
last_trusted trusted found (p ∷ ps) h = elim (Bool-cases (trusted p)) [
  | inl e ↦ rw e (last_trusted trusted found ps (ground arith))
  | inr e ↦ absurd (contradiction e)
]
  where
    contradiction : trusted p ≡ false → ⊥
    contradiction e = ground arith

-- With a header whose last untrusted hop is `p`, the address is `p` if the peer is trusted, and
-- the peer's if it is not: nothing that stands before `p` in the header has a say.
pub client_ip_is_last_untrusted :
    (trusted : Text → Bool) (client : Option Text) (forged : List Text) (p : Text)
    (ours : List Text) (header : Text)
    → hops header ≡ forged ++ p ∷ ours
    → trusted p ≡ false
    → all trusted ours ≡ true
    → client_ip trusted client header ≡ (if trusted (peer_of client) then p else peer_of client)
unfolding client_ip
client_ip_is_last_untrusted trusted client forged p ours header e n h =
    let q : first_untrusted trusted (peer_of client) (reverse (hops header)) ≡ p =
      ap (λ l. first_untrusted trusted (peer_of client) (reverse l)) e
      ∙ first-reverse trusted (peer_of client) (forged ++ p ∷ ours)
      ∙ last-append trusted (peer_of client) forged (p ∷ ours)
      ∙ rw n (last_trusted trusted p ours h) in
    rw q

-- With a trusted peer and a header all of whose hops are trusted, the address is the peer's.
pub client_ip-all_trusted :
    (trusted : Text → Bool) (client : Option Text) (header : Text)
    → all trusted (hops header) ≡ true
    → client_ip trusted client header ≡ peer_of client
unfolding client_ip
client_ip-all_trusted trusted client header h =
    let q : first_untrusted trusted (peer_of client) (reverse (hops header)) ≡ peer_of client =
      first-reverse trusted (peer_of client) (hops header)
      ∙ last_trusted trusted (peer_of client) (hops header) h in
    rw q (ground arith)
