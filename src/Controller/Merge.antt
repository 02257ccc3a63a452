-- ===== src/Controller/Merge.antt =====
-- `mergeEnv` and `mergeEnvFrom` of pkg/controller/maintenance/maintenencejob.go: the entries of the
-- second list take the places of those with their key in the first, and the others follow in their
-- order. The two functions are one loop over two kinds of key. The map of the source sends a key to
-- the last index that has it; an index in the map is always in range.
pub mod Lookup
use vihara.Prelude.{
  ℕ, ◌+◌, String, Option, none, some, List, [], ◌∷◌, ◌++◌, ◌<>◌, Map, lookup, insert, erase,
  get_elem?, leb, if◌then◌else◌,
}
use vihara.Api.{EnvVar, EnvFromSource}

-- `sort.Ints`
unfoldable pub insert_sorted : ℕ → List ℕ → List ℕ
insert_sorted n [] = n ∷ []
insert_sorted n (m ∷ ms) = if leb n m then n ∷ m ∷ ms else m ∷ insert_sorted n ms

unfoldable pub sort : List ℕ → List ℕ
unfolding insert_sorted
sort [] = []
sort (n ∷ ns) = insert_sorted n (sort ns)

-- `for _, i := range bm`
unfoldable pub values : Map ℕ → List ℕ
values [] = []
values ((k, i) ∷ m) = i ∷ values m

module _ {A : Type 0} where
  -- `append(result, b[i])`, in front of what follows
  unfoldable pub entry_at : List A → ℕ → List A → List A
  entry_at b i rest = elim (get_elem? b i) [ none ↦ rest | some x ↦ x ∷ rest ]

  -- `for _, i := range remains { result = append(result, b[i]) }`
  unfoldable pub entries_at : List A → List ℕ → List A
  unfolding entry_at
  entries_at b [] = []
  entries_at b (i ∷ is) = entry_at b i (entries_at b is)

module _ {A : Type 0} (key : A → Option String) where
  -- the loop over `b` that fills the map, from index `i`
  unfoldable pub index : List A → ℕ → Map ℕ → Map ℕ
  index [] i bm = bm
  index (x ∷ xs) i bm = index xs (i + 1) (elim (key x) [ none ↦ bm | some k ↦ insert k i bm ])

module _ {A : Type 0} (key : A → String) (b : List A) where
  -- the loop over `a`: what it appends and the entries of the map that it leaves
  unfoldable pub override : List A → Map ℕ → List A × Map ℕ
  unfolding entry_at
  override [] bm = ([], bm)
  override (x ∷ xs) bm = elim (lookup (key x) bm) [
    | none ↦ let (rest, bm') = override xs bm in (x ∷ rest, bm')
    | some i ↦ let (rest, bm') = override xs (erase (key x) bm) in (entry_at b i rest, bm')
  ]

module _ {A : Type 0} (key_b : A → Option String) (key_a : A → String) where
  unfoldable pub merge : List A → List A → List A
  unfolding index override values sort entries_at
  merge a b =
      let (result, bm) = override key_a b a (index key_b b 0 []) in
      result ++ entries_at b (sort (values bm))

abbrev pub env_key : EnvVar → String
env_key v = v.name

unfoldable pub merge_env : List EnvVar → List EnvVar → List EnvVar
unfolding merge
merge_env a b = merge (λ v. some (env_key v)) env_key a b

-- the key of a source that refers to a config map or a secret
abbrev pub source_key? : EnvFromSource → Option String
source_key? src = elim src.config_map_ref [
  | some name ↦ some ("cm" <> name <> src.prefix)
  | none ↦ elim src.secret_ref [ some name ↦ some ("sec" <> name <> src.prefix) | none ↦ none ]
]

abbrev pub source_key : EnvFromSource → String
source_key src = elim (source_key? src) [ none ↦ "" | some k ↦ k ]

unfoldable pub merge_env_from : List EnvFromSource → List EnvFromSource → List EnvFromSource
unfolding merge
merge_env_from a b = merge source_key? source_key a b
