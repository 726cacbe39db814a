-- ===== src/Challenges/Tests.antt =====
-- Runs of the functions on challenges, and the theorem there.
use opennas.Base.{
  ◌-◌, ◌≡◌, refl, none, some, List, [], ◌∷◌, leb, if◌then◌else◌, nat_eq, string_eq, list_eq,
}
use opennas.Challenges.{
  registration, authentication, challenge_ttl_ms, put_challenge, take_challenge,
}
use opennas.Challenges.Once.{Request, put, take_one, run, take_challenge-put_challenge}

challenge_code : Unit {0}
unfolding put_challenge take_challenge
challenge_code = tt

abbrev between : List Request
between = put "c2" 20 "other" registration none ∷ take_one "c3" 30 ∷ []

challenge_tests :
    ((take_challenge 300010 (put_challenge "c1" 10 [] "nonce" authentication none) "c1").1
      ≡ some (record { challenge = "nonce"; kind = authentication; user_id = none }))
    × ((take_challenge 300011 (put_challenge "c1" 10 [] "nonce" authentication none) "c1").1 ≡ none)
unfolding challenge_code
challenge_tests = (refl, refl)

take_challenge-put_challenge_example :
    (let held = run between (put_challenge "c1" 10 [] "nonce" authentication none) in
      let taken = take_challenge 40 held "c1" in
      (taken.1 ≡ (
        if leb (40 - 10) challenge_ttl_ms
        then some (record { challenge = "nonce"; kind = authentication; user_id = none })
        else none))
      × ((take_challenge 50 (run (take_one "c2" 45 ∷ []) taken.0) "c1").1 ≡ none))
take_challenge-put_challenge_example =
    take_challenge-put_challenge "c1" 10 40 50 [] "nonce" authentication none between
      (take_one "c2" 45 ∷ []) refl (refl, (refl, tt)) (refl, tt)
