-- ===== src/Columnar/Dict.antt =====
-- The dictionary of a `ColumnBuilder::Dictionary` of columnar.rs: the texts one after the other,
-- where each ends, and the code of each. An `i32` is its 32-bit pattern. `remap[code]` out of range,
-- where the source panics, reads 0; no code is.
use rypipe.Prelude.{
  ℕ, zero, suc, Bool, ◌+◌, ◌-◌, ◌^◌, Option, none, some, List, [], ◌∷◌, ◌++◌, Str, length,
  get_elem?, get_or, set, take, drop, lookup, if◌then◌else◌,
}
use rypipe.Columnar.Bitmap
use rypipe.Columnar.Nullable.{NullableColumn}
use rypipe.Columnar.Nullable
use rypipe.Columnar.Texts.{as_i32, as_usize}

-- The fields `data`, `offsets` and `index` of the variant.
pub record Dictionary : Type 0 where
  pub bytes : Str
  pub offsets : List ℕ
  pub index : List (Str × ℕ)

abbrev pub new : Dictionary
new = record { bytes = []; offsets = 0 ∷ []; index = [] }

-- The new text, with the next code.
abbrev pub inserted : Dictionary → Str → Dictionary
inserted d v =
    let bytes = d.bytes ++ v in
    record {
      bytes = bytes;
      offsets = d.offsets ++ (as_i32 (length bytes) ∷ []);
      index = (v, as_i32 (as_i32 (length d.offsets) + (2 ^ 32 - 1))) ∷ d.index;
    }

unfoldable pub dict_code : Dictionary → Str → ℕ × Dictionary
dict_code d v = elim (lookup v d.index) [
  | some code ↦ (code, d)
  | none ↦ (as_i32 (as_i32 (length d.offsets) + (2 ^ 32 - 1)), inserted d v)
]

-- The bytes of the entry `i`, if both of its offsets are there.
unfoldable pub entry : Dictionary → ℕ → Option Str
entry d i = elim (get_elem? d.offsets i) [
  | none ↦ none
  | some start ↦ elim (get_elem? d.offsets (i + 1)) [
    | none ↦ none
    | some end ↦ some (take (as_usize end - as_usize start) (drop (as_usize start) d.bytes))
  ]
]

-- `codes.push` of the code of a text, or of a null.
unfoldable pub push_text :
    NullableColumn ℕ → Dictionary → Option Str → NullableColumn ℕ × Dictionary
unfolding dict_code Nullable.push
push_text codes d none = (Nullable.push 0 codes none, d)
push_text codes d (some s) =
    let (code, d') = dict_code d s in (Nullable.push 0 codes (some code), d')

-- `for val in old.iter() { … }`
unfoldable pub push_texts :
    NullableColumn ℕ → Dictionary → List (Option Str) → NullableColumn ℕ × Dictionary
unfolding push_text
push_texts codes d [] = (codes, d)
push_texts codes d (v ∷ vs) = let (codes', d') = push_text codes d v in push_texts codes' d' vs

-- The bytes of an entry, or nothing if they are not UTF-8.
unfoldable pub entry_text : (utf8 : Str → Bool) → Dictionary → ℕ → Str
entry_text utf8 d i =
    let start = as_usize (get_or d.offsets i 0) in
    let end = as_usize (get_or d.offsets (i + 1) 0) in
    let text = take (end - start) (drop start d.bytes) in if utf8 text then text else []

-- The codes in `d` of the entries `from..from + count` of `other`, which go into `d`.
unfoldable pub remap_from :
    (utf8 : Str → Bool) → Dictionary → Dictionary → (from count : ℕ) → List ℕ × Dictionary
unfolding dict_code entry_text
remap_from utf8 d other from zero = ([], d)
remap_from utf8 d other from (suc count) =
    let (code, d') = dict_code d (entry_text utf8 other from) in
    let (rest, d'') = remap_from utf8 d' other (from + 1) count in (code ∷ rest, d'')

-- `for c in b_codes.iter() { a_codes.push(c.map(|code| remap[*code as usize])) }`
unfoldable pub push_codes : NullableColumn ℕ → List ℕ → List (Option ℕ) → NullableColumn ℕ
unfolding Nullable.push
push_codes codes remap [] = codes
push_codes codes remap (none ∷ cs) = push_codes (Nullable.push 0 codes none) remap cs
push_codes codes remap (some c ∷ cs) =
    push_codes (Nullable.push 0 codes (some (get_or remap (as_usize c) 0))) remap cs

-- The dictionary case of `extend_owned`, where `codes` has a row.
unfoldable pub extend :
    (utf8 : Str → Bool)
    → NullableColumn ℕ
    → Dictionary
    → NullableColumn ℕ
    → Dictionary
    → NullableColumn ℕ × Dictionary
unfolding remap_from push_codes Nullable.iter
extend utf8 codes d b_codes b =
    let (remap, d') = remap_from utf8 d b 0 (length b.offsets - 1) in
    (push_codes codes remap (Nullable.iter 0 b_codes), d')

-- `*v = remapped`, if the map has the code.
abbrev pub remapped : List ℕ → List ℕ → ℕ → List ℕ
remapped values remap i = elim (get_elem? remap (as_usize (get_or values i 0))) [
  | none ↦ values
  | some code ↦ set values i code
]

-- `NullableColumn::remap_codes`, from the row `i` on for `count` rows.
unfoldable pub remap_codes_from : NullableColumn ℕ → List ℕ → (i count : ℕ) → NullableColumn ℕ
unfolding Bitmap.is_valid
remap_codes_from c remap i zero = c
remap_codes_from c remap i (suc count) =
    let c' =
      if Bitmap.is_valid c.validity i then record c { values = remapped c.values remap i } else c in
    remap_codes_from c' remap (i + 1) count

unfoldable pub remap_codes : NullableColumn ℕ → List ℕ → NullableColumn ℕ
unfolding remap_codes_from
remap_codes c remap = remap_codes_from c remap 0 c.validity.len
