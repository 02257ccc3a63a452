-- ===== src/Controller/Merge/Lookup.antt =====
-- What the merged environments have under a key.
use vihara.Prelude.{
  ℕ, suc, ◌+◌, ◌≡◌, refl, ap, inl, inr, String, Bool, Bool-cases, Option-cases, true, false, Option,
  none, some, List, [], ◌∷◌, ◌++◌, Map, lookup, insert, erase, lookup-insert, lookup-erase,
  Distinct, Distinct-insert, Distinct-erase, All, get_elem?, ◌==◌, eq_iff, arith, if◌then◌else◌,
}
use vihara.Api.{EnvVar, EnvFromSource}
use vihara.Controller.Merge.{
  insert_sorted, sort, values, entries_at, index, override, merge, env_key, merge_env, source_key?,
  source_key, merge_env_from,
}

abbrev pub or_else : {A : Type 0} → Option A → Option A → Option A
or_else none r = r
or_else (some a) r = some a

abbrev has_key : Option String → String → Bool
has_key none k = false
has_key (some j) k = j == k

module _ {A : Type 0} where
  -- the first entry with a key
  abbrev pub find : (A → String) → String → List A → Option A
  find key k [] = none
  find key k (x ∷ xs) = if key x == k then some x else find key k xs

  -- the last entry with a key, where some entries have none
  abbrev pub find_last : (A → Option String) → String → List A → Option A
  find_last key k [] = none
  find_last key k (x ∷ xs) =
      or_else (find_last key k xs) (if has_key (key x) k then some x else none)

module _ {A : Type 0} (key_b : A → Option String) (key_a : A → String)
    (agree : (y : A) (k : String) → key_b y ≡ some k → key_a y ≡ k) (b : List A) where
  -- the entry of `b` that an entry of the map leads to
  abbrev Leads : String × ℕ → Type 0
  Leads (k, i) = (y : A) × (get_elem? b i ≡ some y) × (key_a y ≡ k)

  abbrev entry : Map ℕ → String → Option A
  entry m k = elim (lookup k m) [ none ↦ none | some i ↦ get_elem? b i ]

  Leads-insert :
      (k : String) (i : ℕ) (m : Map ℕ) → Leads (k, i) → All Leads m → All Leads (insert k i m)
  unfolding insert
  Leads-insert k i [] l h = (l, tt)
  Leads-insert k i ((j, n) ∷ m) l (l', h) = elim (Bool-cases (j == k)) [
    | inl same ↦ rw same (rw (← (eq_iff j k).0 same) at l, h)
    | inr other ↦ rw other (l', Leads-insert k i m l h)
  ]

  Leads-erase : (k : String) (m : Map ℕ) → All Leads m → All Leads (erase k m)
  unfolding erase
  Leads-erase k [] h = tt
  Leads-erase k ((j, n) ∷ m) (l, h) = elim (Bool-cases (j == k)) [
    | inl same ↦ rw same (Leads-erase k m h)
    | inr other ↦ rw other (l, Leads-erase k m h)
  ]

  entry-insert :
      (k j : String) (i : ℕ) (m : Map ℕ)
      → entry (insert k i m) j ≡ (if k == j then get_elem? b i else entry m j)
  entry-insert k j i m = ground (arith, lookup-insert k j i m)

  entry-erase :
      (k j : String) (m : Map ℕ) → entry (erase k m) j ≡ (if k == j then none else entry m j)
  entry-erase k j m = ground (arith, lookup-erase k j m)

  -- Sorting an index into a list of indices, for a key that the entry at the index has or has not.
  find-entries_at_new :
      (k : String) (i : ℕ) (is : List ℕ) (y : A)
      → get_elem? b i ≡ some y
      → (key_a y == k) ≡ true
      → find key_a k (entries_at b is) ≡ none
      → find key_a k (entries_at b (insert_sorted i is)) ≡ some y
  unfolding entries_at insert_sorted
  find-entries_at_new k i [] y there has absent = ground arith
  find-entries_at_new k i (n ∷ is) y there has absent =
      ground (arith, find-entries_at_new k i is y there has)

  find-entries_at_other :
      (k : String) (i : ℕ) (is : List ℕ) (y : A)
      → get_elem? b i ≡ some y
      → (key_a y == k) ≡ false
      → find key_a k (entries_at b (insert_sorted i is)) ≡ find key_a k (entries_at b is)
  unfolding entries_at insert_sorted
  find-entries_at_other k i [] y there lacks = ground arith
  find-entries_at_other k i (n ∷ is) y there lacks =
      ground (arith, find-entries_at_other k i is y there lacks)

  find-remains :
      (k : String) (m : Map ℕ)
      → Distinct m
      → All Leads m
      → find key_a k (entries_at b (sort (values m))) ≡ entry m k
  unfolding entries_at sort values lookup
  find-remains k [] distinct leads = refl
  find-remains k ((j, i) ∷ m) (new, distinct) ((y, there, named), leads) = ground (
    arith,
    find-remains k m distinct leads,
    eq_iff j k,
    find-entries_at_new k i (sort (values m)) y there,
    find-entries_at_other k i (sort (values m)) y there,
  )

  Leads-lookup : (k : String) (m : Map ℕ) {i : ℕ} → All Leads m → lookup k m ≡ some i → Leads (k, i)
  unfolding lookup
  Leads-lookup k [] leads found = cc
  Leads-lookup k ((j, n) ∷ m) (l, leads) found = elim (Bool-cases (j == k)) [
    | inl same ↦
        let (y, there, named) = l in (y, ground (arith, eq_iff j k), ground (arith, eq_iff j k))
    | inr other ↦ Leads-lookup k m leads (rw other at found)
  ]

  find-override :
      (k : String) (a : List A) (m : Map ℕ)
      → Distinct m
      → All Leads m
      → let (result, m') = override key_a b a m in
        find key_a k (result ++ entries_at b (sort (values m')))
        ≡ or_else (entry m k) (find key_a k a)
  unfolding override
  find-override k [] m distinct leads = ground (arith, find-remains k m distinct leads)
  find-override k (x ∷ xs) m distinct leads = elim (Option-cases (lookup (key_a x) m)) [
    | inl absent ↦ ground (arith, find-override k xs m distinct leads, eq_iff (key_a x) k)
    | inr (i, found) ↦
        let (y, there, named) = Leads-lookup (key_a x) m leads found in
        let m' = erase (key_a x) m in
        ground (
          arith,
          find-override k xs m' (Distinct-erase (key_a x) m distinct)
              (Leads-erase (key_a x) m leads),
          entry-erase (key_a x) k m,
          eq_iff (key_a x) k,
        )
  ]

  shift :
      (x : A) (xs : List A) (i : ℕ)
      → ((j : ℕ) → get_elem? b (i + j) ≡ get_elem? (x ∷ xs) j)
      → (j : ℕ) → get_elem? b (i + 1 + j) ≡ get_elem? xs j
  shift x xs i h j = let same : i + 1 + j ≡ i + suc j = omega arith in rw same (h (suc j))

  entry-index :
      (k : String) (xs : List A) (i : ℕ) (m : Map ℕ)
      → ((j : ℕ) → get_elem? b (i + j) ≡ get_elem? xs j)
      → entry (index key_b xs i m) k ≡ or_else (find_last key_b k xs) (entry m k)
  unfolding index
  entry-index k [] i m h = ground arith
  entry-index k (x ∷ xs) i m h = elim (Option-cases (key_b x)) [
    | inl unnamed ↦ ground (arith, entry-index k xs (i + 1) m (shift x xs i h))
    | inr (name, named) ↦ ground (
      arith,
      entry-index k xs (i + 1) (insert name i m) (shift x xs i h),
      entry-insert name k i m,
      h 0,
    )
  ]

  Distinct-index : (xs : List A) (i : ℕ) (m : Map ℕ) → Distinct m → Distinct (index key_b xs i m)
  unfolding index
  Distinct-index [] i m h = h
  Distinct-index (x ∷ xs) i m h = elim (Option-cases (key_b x)) [
    | inl unnamed ↦ rw unnamed (Distinct-index xs (i + 1) m h)
    | inr (name, named) ↦
        rw named (Distinct-index xs (i + 1) (insert name i m) (Distinct-insert name i m h))
  ]

  Leads-index :
      (xs : List A) (i : ℕ) (m : Map ℕ)
      → ((j : ℕ) → get_elem? b (i + j) ≡ get_elem? xs j)
      → All Leads m
      → All Leads (index key_b xs i m)
  unfolding index
  Leads-index [] i m h leads = leads
  Leads-index (x ∷ xs) i m h leads = elim (Option-cases (key_b x)) [
    | inl unnamed ↦ rw unnamed (Leads-index xs (i + 1) m (shift x xs i h) leads)
    | inr (name, named) ↦
        let start : i + 0 ≡ i = omega arith in
        let there : get_elem? b i ≡ some x = rw start at (h 0) in
        rw named (
          Leads-index xs (i + 1) (insert name i m) (shift x xs i h)
            (Leads-insert name i m (x, there, agree x name named) leads))
  ]

  from_start : (j : ℕ) → get_elem? b (0 + j) ≡ get_elem? b j
  from_start j = let same : 0 + j ≡ j = omega arith in ap (get_elem? b) same

  find-merge :
      (k : String) (a : List A)
      → find key_a k (merge key_b key_a a b) ≡ or_else (find_last key_b k b) (find key_a k a)
  unfolding merge lookup
  find-merge k a =
      let m = index key_b b 0 [] in
      let distinct = Distinct-index b 0 [] tt in
      let leads = Leads-index b 0 [] from_start tt in
      ground (arith, find-override k a m distinct leads, entry-index k b 0 [] from_start)

-- The first entry of a name in a merged environment is the last one of the second list, and, if this
-- has none, the first one of the first list.
pub find-merge_env :
    (k : String) (a b : List EnvVar)
    → find env_key k (merge_env a b)
      ≡ or_else (find_last (λ v. some (env_key v)) k b) (find env_key k a)
unfolding merge_env
find-merge_env k a b =
    find-merge (λ v. some (env_key v)) env_key (λ v name named. ground arith) b k a

-- The first source of a key (the kind, the name and the prefix) in a merged list of sources is the
-- last one of the second list, and, if this has none, the first one of the first list.
find-merge_env_from :
    (k : String) (a b : List EnvFromSource)
    → find source_key k (merge_env_from a b)
      ≡ or_else (find_last source_key? k b) (find source_key k a)
unfolding merge_env_from
find-merge_env_from k a b = find-merge source_key? source_key (λ v name named. ground arith) b k a
