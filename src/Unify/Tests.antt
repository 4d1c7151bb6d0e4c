-- ===== src/Unify/Tests.antt =====
-- Two chunks of one dictionary column, whose texts differ: the codes of the second are those of
-- the first's texts afterwards.
use rypipe.Prelude.{◌≡◌, refl, List, [], ◌∷◌, bytes, some, map, arith, lookup}
use rypipe.Value.Sample.{sample}
use rypipe.Columnar.Bitmap.{empty}
use rypipe.Columnar.Dict.{Dictionary, entry}
use rypipe.Builder.{ColumnBuilder}
use rypipe.Unify.{seed_of, unify_dictionaries}
use rypipe.Unify.Seed.{own_codes, count_of, unify_dictionaries-seed_of}

abbrev first_chunk : Dictionary
first_chunk = record { bytes = bytes "a"; offsets = 0 ∷ 1 ∷ []; index = (bytes "a", 0) ∷ [] }

abbrev second_chunk : Dictionary
second_chunk = record { bytes = bytes "b"; offsets = 0 ∷ 1 ∷ []; index = (bytes "b", 0) ∷ [] }

abbrev chunk_columns : List ColumnBuilder
chunk_columns =
    ColumnBuilder.dictionary (record { values = 0 ∷ []; validity = empty }) first_chunk
    ∷ ColumnBuilder.dictionary (record { values = 0 ∷ []; validity = empty }) second_chunk
    ∷ []

second_text_lost :
    (entry second_chunk 0 ≡ some (bytes "b"))
    × (entry (unify_dictionaries sample (seed_of first_chunk) chunk_columns).0 0 ≡ some (bytes "a"))
unfolding entry unify_dictionaries seed_of lookup
second_text_lost = (refl, refl)

unify_dictionaries-seed_of_example :
    unify_dictionaries sample (seed_of first_chunk) chunk_columns
    ≡ (seed_of first_chunk, map own_codes chunk_columns)
unfolding count_of
unify_dictionaries-seed_of_example =
    unify_dictionaries-seed_of sample first_chunk chunk_columns (omega arith, (omega arith, tt))
