-- ===== src/Std/Values.antt =====
-- net/url: `ParseQuery` and the methods of `Values`. The map is the list of its pairs in the order
-- of the query; `Get` reads the first value of a key.
use vel.Common.{
  Bool, List, Option, Text, [], any, cut, eqb, false, if◌then◌else◌, keep, none, not, some, true, ℕ,
  ◌++◌, ◌==◌, ◌∷◌,
}
use vel.Std.Query.{query_unescape}
use vel.Std.Sort.{sort_slice, text_ltb}

-- The parts of a text between the separators; a text without one is its own only part.
unfoldable pub split : ℕ → Text → List Text
split b [] = [] ∷ []
split b (c ∷ s) = elim (split b s) [
  | [] ↦ []
  | part ∷ parts ↦ if eqb c b then [] ∷ part ∷ parts else (c ∷ part) ∷ parts
]

abbrev pub Values : Type 0
Values = List (Text × Text)

-- The key and the value of a part, both unescaped; `none` is an error.
unfoldable pub parse_part : Text → Option (Text × Text)
parse_part part =
    let kv : Text × Text = elim (cut b'=' part) [ none ↦ (part, []) | some kv ↦ kv ] in
    elim (query_unescape kv.0) [
      | none ↦ none
      | some key ↦ elim (query_unescape kv.1) [ none ↦ none | some value ↦ some (key, value) ]
    ]

-- Whether there was no error, and the pairs that had none.
unfoldable pub parse_parts : List Text → Bool × Values
parse_parts [] = (true, [])
parse_parts (part ∷ parts) =
    let rest = parse_parts parts in
    if any (λ c. eqb c b';') part
    then (false, rest.1)
    else if part == []
    then rest
    else elim (parse_part part) [ none ↦ (false, rest.1) | some kv ↦ (rest.0, kv ∷ rest.1) ]

unfoldable pub parse_query : Text → Bool × Values
parse_query query = parse_parts (split b'&' query)

unfoldable pub get_value : Values → Text → Text
get_value [] key = []
get_value ((k, v) ∷ vs) key = if k == key then v else get_value vs key

unfoldable pub delete_key : Values → Text → Values
delete_key vs key = keep (λ (k, v). not (k == key)) vs

-- The keys of the map, each once.
unfoldable pub distinct_keys : Values → List Text
distinct_keys [] = []
distinct_keys ((k, v) ∷ vs) = k ∷ keep (λ j. not (j == k)) (distinct_keys vs)

unfoldable pub sorted_keys : Values → List Text
sorted_keys vs = sort_slice text_ltb (distinct_keys vs)

-- `strings.Join`
unfoldable pub join : Text → List Text → Text
join separator [] = []
join separator (s ∷ []) = s
join separator (s ∷ t ∷ ts) = s ++ (separator ++ join separator (t ∷ ts))
