-- ===== src/Plan/Resolve.antt =====
-- What `resolve_field` of plan.rs keeps: the fields of the filter, whatever the projection.
use rypipe.Prelude.{
  Option, none, some, Bool, true, false, ◌&&◌, ◌||◌, Str, str_eq, str_eq_refl, member, ◌≡◌, ◌⊎◌,
  refl, inl, inr, if◌then◌else◌,
}
use rypipe.Plan.{
  ExecutionPlan, FilterPredicate, references, filter_references, rename, resolve_field, flip,
  is_empty,
}

-- The fields that the leaves of a filter read.
unfoldable pub Reads : FilterPredicate → Str → Type 0
Reads (FilterPredicate.equal g _) f = g ≡ f
Reads (FilterPredicate.not_equal g _) f = g ≡ f
Reads (FilterPredicate.compare g _ g') f = (g ≡ f) ⊎ (g' ≡ f)
Reads (FilterPredicate.compare_literal g _ _) f = g ≡ f
Reads (FilterPredicate.starts_with g _) f = g ≡ f
Reads (FilterPredicate.ends_with g _) f = g ≡ f
Reads (FilterPredicate.in_set g _) f = g ≡ f
Reads (FilterPredicate.not_in g _) f = g ≡ f
Reads (FilterPredicate.always _) f = ⊥
Reads (FilterPredicate.not_field g) f = g ≡ f
Reads (FilterPredicate.arithmetic_compare g _ _ _ _) f = g ≡ f
Reads (FilterPredicate.strip g _ _ _) f = g ≡ f
Reads (FilterPredicate.lower g _ _) f = g ≡ f
Reads (FilterPredicate.upper g _ _) f = g ≡ f
Reads (FilterPredicate.replace g _ _ _ _) f = g ≡ f
Reads (FilterPredicate.length g _ _) f = g ≡ f
Reads (FilterPredicate.contains g _) f = g ≡ f
Reads (FilterPredicate.is_null g) f = g ≡ f
Reads (FilterPredicate.is_type g _) f = g ≡ f
Reads (FilterPredicate.regex g _) f = g ≡ f
Reads (FilterPredicate.and a b) f = Reads a f ⊎ Reads b f
Reads (FilterPredicate.or a b) f = Reads a f ⊎ Reads b f
Reads (FilterPredicate.not a) f = Reads a f

module _ (plan : ExecutionPlan) (f : Str) where
  same_name : (g : Str) → g ≡ f → str_eq (rename plan g) (rename plan f) ≡ true
  same_name g e = rw e (str_eq_refl (rename plan f))

  left_true : (a b : Bool) → a ≡ true → (a || b) ≡ true
  left_true a b e = rw e refl

  right_true : (a b : Bool) → b ≡ true → (a || b) ≡ true
  right_true true b e = refl
  right_true false b e = e

  Reads-references : (p : FilterPredicate) → Reads p f → references plan (rename plan f) p ≡ true
  unfolding Reads references
  Reads-references (FilterPredicate.equal g _) r = same_name g r
  Reads-references (FilterPredicate.not_equal g _) r = same_name g r
  Reads-references (FilterPredicate.compare g _ g') (inl r) = left_true _ _ (same_name g r)
  Reads-references (FilterPredicate.compare g _ g') (inr r) = right_true _ _ (same_name g' r)
  Reads-references (FilterPredicate.compare_literal g _ _) r = same_name g r
  Reads-references (FilterPredicate.starts_with g _) r = same_name g r
  Reads-references (FilterPredicate.ends_with g _) r = same_name g r
  Reads-references (FilterPredicate.in_set g _) r = same_name g r
  Reads-references (FilterPredicate.not_in g _) r = same_name g r
  Reads-references (FilterPredicate.always _) r = elim r [ ]
  Reads-references (FilterPredicate.not_field g) r = same_name g r
  Reads-references (FilterPredicate.arithmetic_compare g _ _ _ _) r = same_name g r
  Reads-references (FilterPredicate.strip g _ _ _) r = same_name g r
  Reads-references (FilterPredicate.lower g _ _) r = same_name g r
  Reads-references (FilterPredicate.upper g _ _) r = same_name g r
  Reads-references (FilterPredicate.replace g _ _ _ _) r = same_name g r
  Reads-references (FilterPredicate.length g _ _) r = same_name g r
  Reads-references (FilterPredicate.contains g _) r = same_name g r
  Reads-references (FilterPredicate.is_null g) r = same_name g r
  Reads-references (FilterPredicate.is_type g _) r = same_name g r
  Reads-references (FilterPredicate.regex g _) r = same_name g r
  Reads-references (FilterPredicate.and a b) (inl r) = left_true _ _ (Reads-references a r)
  Reads-references (FilterPredicate.and a b) (inr r) = right_true _ _ (Reads-references b r)
  Reads-references (FilterPredicate.or a b) (inl r) = left_true _ _ (Reads-references a r)
  Reads-references (FilterPredicate.or a b) (inr r) = right_true _ _ (Reads-references b r)
  Reads-references (FilterPredicate.not a) r = Reads-references a r

  not_projected : (a b : Bool) (o : Option Str) → (if a && b && false then none else o) ≡ o
  not_projected true true o = refl
  not_projected true false o = refl
  not_projected false b o = refl

  -- A field that a leaf of the plan's filter reads resolves to its output name, whatever the
  -- projection, unless the plan drops that name.
  pub resolve_field-Reads :
      (p : FilterPredicate)
      → plan.filter ≡ some p
      → Reads p f
      → member (rename plan f) plan.drop_fields ≡ false
      → resolve_field plan f ≡ some (rename plan f)
  unfolding resolve_field filter_references
  resolve_field-Reads p set r kept =
      let referenced : filter_references plan (rename plan f) ≡ true =
        rw (set, filter_references) (Reads-references p r) in
      rw (kept, referenced)
        (not_projected (flip (is_empty plan.schema_order))
          (flip (member (rename plan f) plan.schema_order)) (some (rename plan f)))
