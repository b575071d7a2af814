-- ===== src/Randdata/Tests.antt =====
-- Three of five bytes are filled.
use vcmp.Prelude.{◌+◌, ◌≡◌, refl, [], ◌∷◌, ◌++◌, true, done, All}
use vcmp.Randdata.{rand_array, is_alphanumeric}
use vcmp.Randdata.Letters.{letters, rand_array-letters}

fill_run :
    rand_array (λ i. 60 + i) (0 ∷ 0 ∷ 0 ∷ 5 ∷ 6 ∷ []) 3 ≡ done (b'8' ∷ b'9' ∷ b'a' ∷ 5 ∷ 6 ∷ [])
unfolding rand_array
fill_run = refl

rand_array-letters_example :
    (rand_array (λ i. 60 + i) ((0 ∷ 0 ∷ 0 ∷ []) ++ (5 ∷ 6 ∷ [])) 3
      ≡ done (letters (λ i. 60 + i) 3 0 ++ (5 ∷ 6 ∷ [])))
    × All (λ c. is_alphanumeric c ≡ true) (letters (λ i. 60 + i) 3 0)
rand_array-letters_example = rand_array-letters (λ i. 60 + i) (0 ∷ 0 ∷ 0 ∷ []) (5 ∷ 6 ∷ [])
