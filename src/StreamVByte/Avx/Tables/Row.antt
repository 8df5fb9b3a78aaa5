-- ===== src/StreamVByte/Avx/Tables/Row.antt =====
-- How the rows of `shuffleTable` are written.
use csearch.Common.{ℕ, List, [], ◌∷◌}

-- -1, as a uint8_t
abbrev pub x : ℕ
x = 255

abbrev pub row : ℕ → ℕ → ℕ → ℕ → ℕ → ℕ → ℕ → ℕ → ℕ → ℕ → ℕ → ℕ → ℕ → ℕ → ℕ → ℕ → List ℕ
row a b c d e f g h i j k l m n o p =
    a ∷ b ∷ c ∷ d ∷ e ∷ f ∷ g ∷ h ∷ i ∷ j ∷ k ∷ l ∷ m ∷ n ∷ o ∷ p ∷ []
