-- ===== src/Config/Lookup.antt =====
-- What the lookups of ghost_amm/config.py find in a merged configuration.
use ghost_amm.Base.{
  ◌≡◌, refl, ap, ◌∙◌, inl, inr, Option, none, some, String, List, [], ◌∷◌, Bool-cases, ◌==◌,
  string_eq, if◌then◌else◌, arith,
}
use ghost_amm.Config.{
  Value, null, bool, int, float, text, items, mapping, Entries, no_entry, entry, find, set,
  deep_merge, merge_value, child, get,
}

-- What a path finds in an override: nothing that is set, a value on the way that has no keys, or a value.
pub data Found (F : Type 0) : Type 0 where
  not_set blocked : Found F
  value_at : Value F → Found F

module _ {F : Type 0} where
  -- No key stands twice, in any of the dicts.
  unfoldable mutual
    pub HasKeysOnce : Entries F → Type 0
    HasKeysOnce no_entry = Unit
    HasKeysOnce (entry k v d) = (find k d ≡ none) × HasOnceIn v × HasKeysOnce d

    pub HasOnceIn : Value F → Type 0
    HasOnceIn (mapping d) = HasKeysOnce d
    HasOnceIn _ = Unit

  abbrev HasOnceAt : Found F → Type 0
  HasOnceAt (value_at v) = HasOnceIn v
  HasOnceAt _ = Unit

  abbrev found : Option (Value F) → Found F
  found none = not_set
  found (some v) = value_at v

  abbrev step : String → Found F → Found F
  step k (value_at (mapping d)) = found (find k d)
  step k (value_at _) = blocked
  step k other = other

  abbrev pub walk : List String → Found F → Found F
  walk [] f = f
  walk (k ∷ path) f = walk path (step k f)

  -- The value of a path in the merged configuration, from what base and override have there.
  abbrev pub merged_at : Option (Value F) → Found F → Option (Value F)
  merged_at base not_set = base
  merged_at base blocked = none
  merged_at base (value_at v) = some (merge_value v base)

  find-set :
      (k j : String) (v : Value F) (d : Entries F)
      → find j (set k v d) ≡ (if k == j then some v else find j d)
  find-set k j v no_entry = refl
  find-set k j v (entry i w d) =
      ground (
        arith,
        string_eq.beq_iff k j,
        string_eq.beq_iff i k,
        string_eq.beq_iff i j,
        find-set k j v d,
      )

  set_step :
      (j k : String) (base override : Entries F) (v : Value F)
      → find j override ≡ none
      → merged_at (find k (set j (merge_value v (find j base)) base)) (found (find k override))
        ≡ merged_at (find k base) (found (if j == k then some v else find k override))
  set_step j k base override v new = elim (Bool-cases (j == k)) [
    | inl e ↦
        let same : j ≡ k = (string_eq.beq_iff j k).0 e in
        rw (find-set j k (merge_value v (find j base)) base, e, ← same, new) refl
    | inr e ↦ rw (find-set j k (merge_value v (find j base)) base, e) refl
  ]

  -- One level.
  find-deep_merge :
      (k : String) (base override : Entries F)
      → HasKeysOnce override
      → find k (deep_merge base override) ≡ merged_at (find k base) (found (find k override))
  unfolding deep_merge HasKeysOnce
  find-deep_merge k base no_entry h = refl
  find-deep_merge k base (entry j v override) (new, _, h) =
      find-deep_merge k (set j (merge_value v (find j base)) base) override h
      ∙ set_step j k base override v new

  found-HasOnceAt : (k : String) (d : Entries F) → HasKeysOnce d → HasOnceAt (found (find k d))
  unfolding HasKeysOnce
  found-HasOnceAt k no_entry h = tt
  found-HasOnceAt k (entry j w d) (_, hw, h) = elim (Bool-cases (j == k)) [
    | inl same ↦ rw same hw
    | inr other ↦ rw other (found-HasOnceAt k d h)
  ]

  step-HasOnceAt : (k : String) (f : Found F) → HasOnceAt f → HasOnceAt (step k f)
  unfolding HasKeysOnce
  step-HasOnceAt k not_set h = tt
  step-HasOnceAt k blocked h = tt
  step-HasOnceAt k (value_at (mapping d)) h = found-HasOnceAt k d h
  step-HasOnceAt k (value_at null) h = tt
  step-HasOnceAt k (value_at (bool b)) h = tt
  step-HasOnceAt k (value_at (int i)) h = tt
  step-HasOnceAt k (value_at (float x)) h = tt
  step-HasOnceAt k (value_at (text s)) h = tt
  step-HasOnceAt k (value_at (items xs)) h = tt

  -- A value that replaces what the base has.
  merged_none : (o : Option (Value F)) → o ≡ merged_at none (found o)
  unfolding deep_merge
  merged_none none = refl
  merged_none (some null) = refl
  merged_none (some (bool b)) = refl
  merged_none (some (int i)) = refl
  merged_none (some (float x)) = refl
  merged_none (some (text s)) = refl
  merged_none (some (items xs)) = refl
  merged_none (some (mapping d)) = refl

  -- One key, below values.
  child-mapping :
      (k : String) (base : Option (Value F)) (d : Entries F)
      → HasKeysOnce d
      → child k (some (merge_value (mapping d) base)) ≡ merged_at (child k base) (found (find k d))
  unfolding deep_merge
  child-mapping k (some (mapping b)) d h = find-deep_merge k b d h
  child-mapping k none d h = merged_none (find k d)
  child-mapping k (some null) d h = merged_none (find k d)
  child-mapping k (some (bool b)) d h = merged_none (find k d)
  child-mapping k (some (int i)) d h = merged_none (find k d)
  child-mapping k (some (float x)) d h = merged_none (find k d)
  child-mapping k (some (text s)) d h = merged_none (find k d)
  child-mapping k (some (items xs)) d h = merged_none (find k d)

  child-merged_at :
      (k : String) (base : Option (Value F)) (f : Found F)
      → HasOnceAt f
      → child k (merged_at base f) ≡ merged_at (child k base) (step k f)
  unfolding deep_merge HasKeysOnce
  child-merged_at k base not_set h = refl
  child-merged_at k base blocked h = refl
  child-merged_at k base (value_at (mapping d)) h = child-mapping k base d h
  child-merged_at k base (value_at null) h = refl
  child-merged_at k base (value_at (bool b)) h = refl
  child-merged_at k base (value_at (int i)) h = refl
  child-merged_at k base (value_at (float x)) h = refl
  child-merged_at k base (value_at (text s)) h = refl
  child-merged_at k base (value_at (items xs)) h = refl

  get-merged_at :
      (path : List String) (base : Option (Value F)) (f : Found F)
      → HasOnceAt f
      → get path (merged_at base f) ≡ merged_at (get path base) (walk path f)
  unfolding get
  get-merged_at [] base f h = refl
  get-merged_at (k ∷ path) base f h =
      ap (get path) (child-merged_at k base f h)
      ∙ get-merged_at path (child k base) (step k f) (step-HasOnceAt k f h)

  -- A path in a configuration with an override: what the override has there, merged into what the base
  -- has there, provided that no dict of the override has a key twice.
  pub get-deep_merge :
      (path : List String) (base override : Entries F)
      → HasKeysOnce override
      → get path (some (mapping (deep_merge base override)))
        ≡ merged_at (get path (some (mapping base))) (walk path (value_at (mapping override)))
  unfolding deep_merge HasKeysOnce
  get-deep_merge path base override h =
      get-merged_at path (some (mapping base)) (value_at (mapping override)) h
