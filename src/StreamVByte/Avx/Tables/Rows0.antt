-- ===== src/StreamVByte/Avx/Tables/Rows0.antt =====
-- Rows 0 to 63 of `shuffleTable` of streamvbytedelta.c.
use csearch.Common.{ℕ, List, [], ◌∷◌}
use csearch.StreamVByte.Avx.Tables.Row.{row, x}

unfoldable pub shuffle_rows_0 : List (List ℕ)
shuffle_rows_0 =
    row 0 x x x 1 x x x 2 x x x 3 x x x
    ∷ row 0 1 x x 2 x x x 3 x x x 4 x x x
    ∷ row 0 1 2 x 3 x x x 4 x x x 5 x x x
    ∷ row 0 1 2 3 4 x x x 5 x x x 6 x x x
    ∷ row 0 x x x 1 2 x x 3 x x x 4 x x x
    ∷ row 0 1 x x 2 3 x x 4 x x x 5 x x x
    ∷ row 0 1 2 x 3 4 x x 5 x x x 6 x x x
    ∷ row 0 1 2 3 4 5 x x 6 x x x 7 x x x
    ∷ row 0 x x x 1 2 3 x 4 x x x 5 x x x
    ∷ row 0 1 x x 2 3 4 x 5 x x x 6 x x x
    ∷ row 0 1 2 x 3 4 5 x 6 x x x 7 x x x
    ∷ row 0 1 2 3 4 5 6 x 7 x x x 8 x x x
    ∷ row 0 x x x 1 2 3 4 5 x x x 6 x x x
    ∷ row 0 1 x x 2 3 4 5 6 x x x 7 x x x
    ∷ row 0 1 2 x 3 4 5 6 7 x x x 8 x x x
    ∷ row 0 1 2 3 4 5 6 7 8 x x x 9 x x x
    ∷ row 0 x x x 1 x x x 2 3 x x 4 x x x
    ∷ row 0 1 x x 2 x x x 3 4 x x 5 x x x
    ∷ row 0 1 2 x 3 x x x 4 5 x x 6 x x x
    ∷ row 0 1 2 3 4 x x x 5 6 x x 7 x x x
    ∷ row 0 x x x 1 2 x x 3 4 x x 5 x x x
    ∷ row 0 1 x x 2 3 x x 4 5 x x 6 x x x
    ∷ row 0 1 2 x 3 4 x x 5 6 x x 7 x x x
    ∷ row 0 1 2 3 4 5 x x 6 7 x x 8 x x x
    ∷ row 0 x x x 1 2 3 x 4 5 x x 6 x x x
    ∷ row 0 1 x x 2 3 4 x 5 6 x x 7 x x x
    ∷ row 0 1 2 x 3 4 5 x 6 7 x x 8 x x x
    ∷ row 0 1 2 3 4 5 6 x 7 8 x x 9 x x x
    ∷ row 0 x x x 1 2 3 4 5 6 x x 7 x x x
    ∷ row 0 1 x x 2 3 4 5 6 7 x x 8 x x x
    ∷ row 0 1 2 x 3 4 5 6 7 8 x x 9 x x x
    ∷ row 0 1 2 3 4 5 6 7 8 9 x x 10 x x x
    ∷ row 0 x x x 1 x x x 2 3 4 x 5 x x x
    ∷ row 0 1 x x 2 x x x 3 4 5 x 6 x x x
    ∷ row 0 1 2 x 3 x x x 4 5 6 x 7 x x x
    ∷ row 0 1 2 3 4 x x x 5 6 7 x 8 x x x
    ∷ row 0 x x x 1 2 x x 3 4 5 x 6 x x x
    ∷ row 0 1 x x 2 3 x x 4 5 6 x 7 x x x
    ∷ row 0 1 2 x 3 4 x x 5 6 7 x 8 x x x
    ∷ row 0 1 2 3 4 5 x x 6 7 8 x 9 x x x
    ∷ row 0 x x x 1 2 3 x 4 5 6 x 7 x x x
    ∷ row 0 1 x x 2 3 4 x 5 6 7 x 8 x x x
    ∷ row 0 1 2 x 3 4 5 x 6 7 8 x 9 x x x
    ∷ row 0 1 2 3 4 5 6 x 7 8 9 x 10 x x x
    ∷ row 0 x x x 1 2 3 4 5 6 7 x 8 x x x
    ∷ row 0 1 x x 2 3 4 5 6 7 8 x 9 x x x
    ∷ row 0 1 2 x 3 4 5 6 7 8 9 x 10 x x x
    ∷ row 0 1 2 3 4 5 6 7 8 9 10 x 11 x x x
    ∷ row 0 x x x 1 x x x 2 3 4 5 6 x x x
    ∷ row 0 1 x x 2 x x x 3 4 5 6 7 x x x
    ∷ row 0 1 2 x 3 x x x 4 5 6 7 8 x x x
    ∷ row 0 1 2 3 4 x x x 5 6 7 8 9 x x x
    ∷ row 0 x x x 1 2 x x 3 4 5 6 7 x x x
    ∷ row 0 1 x x 2 3 x x 4 5 6 7 8 x x x
    ∷ row 0 1 2 x 3 4 x x 5 6 7 8 9 x x x
    ∷ row 0 1 2 3 4 5 x x 6 7 8 9 10 x x x
    ∷ row 0 x x x 1 2 3 x 4 5 6 7 8 x x x
    ∷ row 0 1 x x 2 3 4 x 5 6 7 8 9 x x x
    ∷ row 0 1 2 x 3 4 5 x 6 7 8 9 10 x x x
    ∷ row 0 1 2 3 4 5 6 x 7 8 9 10 11 x x x
    ∷ row 0 x x x 1 2 3 4 5 6 7 8 9 x x x
    ∷ row 0 1 x x 2 3 4 5 6 7 8 9 10 x x x
    ∷ row 0 1 2 x 3 4 5 6 7 8 9 10 11 x x x
    ∷ row 0 1 2 3 4 5 6 7 8 9 10 11 12 x x x
    ∷ []
