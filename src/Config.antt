-- ===== src/Config.antt =====
-- ghost_amm/config.py: the nested dicts of the configuration, how an override is merged into them, and
-- how they are read. `deepcopy` makes no difference here, since a value never changes.
use ghost_amm.Base.{
  ◌≡◌, Bool, true, false, Option, none, some, String, List, [], ◌∷◌, ◌==◌, string_eq, if◌then◌else◌,
}
use ghost_amm.Base.Int.{ℤ}
pub mod Lookup
pub mod Defaults
mod Tests

mutual
  -- What YAML and the defaults can hold, with dicts by their entries in insertion order.
  pub data Value (F : Type 0) : Type 0 where
    null : Value F
    bool : Bool → Value F
    int : ℤ → Value F
    float : F → Value F
    text : String → Value F
    items : Values F → Value F
    mapping : Entries F → Value F

  pub data Values (F : Type 0) : Type 0 where
    no_item : Values F
    item : Value F → Values F → Values F

  pub data Entries (F : Type 0) : Type 0 where
    no_entry : Entries F
    entry : String → Value F → Entries F → Entries F

module _ {F : Type 0} where
  -- A dict and a list as they are written in the source.
  abbrev pub entries : List (String × Value F) → Entries F
  entries [] = no_entry
  entries ((k, v) ∷ d) = entry k v (entries d)

  abbrev pub value_list : List (Value F) → Values F
  value_list [] = no_item
  value_list (v ∷ vs) = item v (value_list vs)

  -- `d.get(key)`
  abbrev pub find : String → Entries F → Option (Value F)
  find k no_entry = none
  find k (entry j v d) = if j == k then some v else find k d

  -- `d[key] = value`
  abbrev pub set : String → Value F → Entries F → Entries F
  set k v no_entry = entry k v no_entry
  set k v (entry j w d) = if j == k then entry j v d else entry j w (set k v d)

  unfoldable mutual
    pub deep_merge : Entries F → Entries F → Entries F
    deep_merge base no_entry = base
    deep_merge base (entry k v override) =
        deep_merge (set k (merge_value v (find k base)) base) override

    -- The value for a key of both dicts.
    pub merge_value : Value F → Option (Value F) → Value F
    merge_value (mapping override) (some (mapping base)) = mapping (deep_merge base override)
    merge_value value _ = value

  -- `cur[key]`, where `cur` is a dict that has the key
  abbrev pub child : String → Option (Value F) → Option (Value F)
  child k (some (mapping d)) = find k d
  child k _ = none

  -- `Config.get` of a path whose keys were split at the dots, `none` for the default.
  unfoldable pub get : List String → Option (Value F) → Option (Value F)
  get [] cur = cur
  get (k ∷ path) cur = get path (child k cur)

  -- `Config.section`
  unfoldable pub section : String → Entries F → Entries F
  section name whole = elim (find name whole) [ some (mapping d) ↦ d | _ ↦ no_entry ]
