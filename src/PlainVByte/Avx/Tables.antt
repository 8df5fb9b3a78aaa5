-- ===== src/PlainVByte/Avx/Tables.antt =====
-- `lengthTable` and `shuffleTable` of streamvbyte.c.
mod Rows0
mod Rows64
mod Rows128
mod Rows192
use csearch.Common.{ℕ, ◌≡◌, refl, List, [], ◌∷◌, ◌++◌}
use csearch.StreamVByte.Avx.Tables.{length_table, shuffle_table}
use csearch.StreamVByte.Avx.Tables.Rows0.{shuffle_rows_0}
use csearch.StreamVByte.Avx.Tables.Rows64.{shuffle_rows_64}
use csearch.StreamVByte.Avx.Tables.Rows128.{shuffle_rows_128}
use csearch.StreamVByte.Avx.Tables.Rows192.{shuffle_rows_192}
use csearch.PlainVByte.Avx.Tables.Rows0.{plain_shuffle_rows_0}
use csearch.PlainVByte.Avx.Tables.Rows64.{plain_shuffle_rows_64}
use csearch.PlainVByte.Avx.Tables.Rows128.{plain_shuffle_rows_128}
use csearch.PlainVByte.Avx.Tables.Rows192.{plain_shuffle_rows_192}

unfoldable pub plain_length_table : List ℕ
plain_length_table =
    4 ∷ 5 ∷ 6 ∷ 7 ∷ 5 ∷ 6 ∷ 7 ∷ 8 ∷ 6 ∷ 7 ∷ 8 ∷ 9 ∷ 7 ∷ 8 ∷ 9 ∷ 10 ∷ 5 ∷ 6 ∷ 7 ∷ 8 ∷ 6 ∷ 7 ∷ 8 ∷ 9
    ∷ 7 ∷ 8 ∷ 9 ∷ 10 ∷ 8 ∷ 9 ∷ 10 ∷ 11 ∷ 6 ∷ 7 ∷ 8 ∷ 9 ∷ 7 ∷ 8 ∷ 9 ∷ 10 ∷ 8 ∷ 9 ∷ 10 ∷ 11 ∷ 9 ∷ 10
    ∷ 11 ∷ 12 ∷ 7 ∷ 8 ∷ 9 ∷ 10 ∷ 8 ∷ 9 ∷ 10 ∷ 11 ∷ 9 ∷ 10 ∷ 11 ∷ 12 ∷ 10 ∷ 11 ∷ 12 ∷ 13 ∷ 5 ∷ 6 ∷ 7
    ∷ 8 ∷ 6 ∷ 7 ∷ 8 ∷ 9 ∷ 7 ∷ 8 ∷ 9 ∷ 10 ∷ 8 ∷ 9 ∷ 10 ∷ 11 ∷ 6 ∷ 7 ∷ 8 ∷ 9 ∷ 7 ∷ 8 ∷ 9 ∷ 10 ∷ 8 ∷ 9
    ∷ 10 ∷ 11 ∷ 9 ∷ 10 ∷ 11 ∷ 12 ∷ 7 ∷ 8 ∷ 9 ∷ 10 ∷ 8 ∷ 9 ∷ 10 ∷ 11 ∷ 9 ∷ 10 ∷ 11 ∷ 12 ∷ 10 ∷ 11
    ∷ 12 ∷ 13 ∷ 8 ∷ 9 ∷ 10 ∷ 11 ∷ 9 ∷ 10 ∷ 11 ∷ 12 ∷ 10 ∷ 11 ∷ 12 ∷ 13 ∷ 11 ∷ 12 ∷ 13 ∷ 14 ∷ 6 ∷ 7
    ∷ 8 ∷ 9 ∷ 7 ∷ 8 ∷ 9 ∷ 10 ∷ 8 ∷ 9 ∷ 10 ∷ 11 ∷ 9 ∷ 10 ∷ 11 ∷ 12 ∷ 7 ∷ 8 ∷ 9 ∷ 10 ∷ 8 ∷ 9 ∷ 10 ∷ 11
    ∷ 9 ∷ 10 ∷ 11 ∷ 12 ∷ 10 ∷ 11 ∷ 12 ∷ 13 ∷ 8 ∷ 9 ∷ 10 ∷ 11 ∷ 9 ∷ 10 ∷ 11 ∷ 12 ∷ 10 ∷ 11 ∷ 12 ∷ 13
    ∷ 11 ∷ 12 ∷ 13 ∷ 14 ∷ 9 ∷ 10 ∷ 11 ∷ 12 ∷ 10 ∷ 11 ∷ 12 ∷ 13 ∷ 11 ∷ 12 ∷ 13 ∷ 14 ∷ 12 ∷ 13 ∷ 14
    ∷ 15 ∷ 7 ∷ 8 ∷ 9 ∷ 10 ∷ 8 ∷ 9 ∷ 10 ∷ 11 ∷ 9 ∷ 10 ∷ 11 ∷ 12 ∷ 10 ∷ 11 ∷ 12 ∷ 13 ∷ 8 ∷ 9 ∷ 10 ∷ 11
    ∷ 9 ∷ 10 ∷ 11 ∷ 12 ∷ 10 ∷ 11 ∷ 12 ∷ 13 ∷ 11 ∷ 12 ∷ 13 ∷ 14 ∷ 9 ∷ 10 ∷ 11 ∷ 12 ∷ 10 ∷ 11 ∷ 12
    ∷ 13 ∷ 11 ∷ 12 ∷ 13 ∷ 14 ∷ 12 ∷ 13 ∷ 14 ∷ 15 ∷ 10 ∷ 11 ∷ 12 ∷ 13 ∷ 11 ∷ 12 ∷ 13 ∷ 14 ∷ 12 ∷ 13
    ∷ 14 ∷ 15 ∷ 13 ∷ 14 ∷ 15 ∷ 16 ∷ []

unfoldable pub plain_shuffle_table : List (List ℕ)
plain_shuffle_table =
    plain_shuffle_rows_0
    ++ (plain_shuffle_rows_64 ++ (plain_shuffle_rows_128 ++ plain_shuffle_rows_192))

-- Both codecs have the same tables.
pub same_lengths : plain_length_table ≡ length_table
unfolding plain_length_table length_table
same_lengths = refl

pub same_shuffles : plain_shuffle_table ≡ shuffle_table
unfolding plain_shuffle_table plain_shuffle_rows_0 plain_shuffle_rows_64 plain_shuffle_rows_128
    plain_shuffle_rows_192 shuffle_table shuffle_rows_0 shuffle_rows_64 shuffle_rows_128
    shuffle_rows_192
same_shuffles = refl
