-- ===== src/Plan/Tests.antt =====
-- Tests of the plan, and its theorem at a projected plan.
use rypipe.Prelude.{◌≡◌, refl, none, some, false, [], ◌∷◌, bytes, member, lookup, str_eq, inr}
use rypipe.Plan.{ExecutionPlan, FilterPredicate, eq, rename, resolve_field}
use rypipe.Plan.Resolve.{Reads, resolve_field-Reads}

abbrev a_is_b : FilterPredicate
a_is_b = FilterPredicate.compare (bytes "a") eq (bytes "b")

-- Projected to `c`, with `b` renamed.
abbrev projected : ExecutionPlan
projected = record {
  field_map = (bytes "b", bytes "d") ∷ [];
  drop_fields = [];
  field_types = [];
  dictionary_columns = [];
  filter = some a_is_b;
  schema_order = bytes "c" ∷ [];
  auto_dict = false;
  dict_threshold = none;
  dict_max_size = none;
  strict_types = false;
  max_split_chunks = none;
  min_chunk_bytes = none;
}

resolve_field-Reads_example : resolve_field projected (bytes "b") ≡ some (bytes "d")
unfolding Reads rename lookup str_eq member
resolve_field-Reads_example = resolve_field-Reads projected (bytes "b") a_is_b refl (inr refl) refl
