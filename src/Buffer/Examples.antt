-- ===== src/Buffer/Examples.antt =====
-- A bump buffer of ten bytes.
use rust_mqtt.Prelude.{ℕ, ◌≤◌, ◌≡◌, refl, List, [], ◌∷◌, All}
use rust_mqtt.Buffer.Bump.{new, provide_all}
use rust_mqtt.Buffer.Slices.{AreDisjoint, end_of, provide_all-disjoint}

abbrev lens : List ℕ
lens = 4 ∷ 7 ∷ 0 ∷ 6 ∷ 1 ∷ []

slices_of_ten :
    (provide_all (new 10) lens).1
    ≡ record { start = 0; size = 4 }
      ∷ record { start = 4; size = 0 }
      ∷ record { start = 4; size = 6 }
      ∷ []
unfolding provide_all new
slices_of_ten = refl

provide_all-disjoint_example :
    AreDisjoint (provide_all (new 10) lens).1
    × All (λ s. end_of s ≤ 10) (provide_all (new 10) lens).1
provide_all-disjoint_example = provide_all-disjoint 10 lens
