-- ===== src/Config/Tests.antt =====
-- Overrides of the default configuration.
use ghost_amm.Base.{◌≡◌, refl, none, some, String, List, [], ◌∷◌}
use ghost_amm.Base.Int.{ℤ, pos}
use ghost_amm.Num.Whole.{whole}
use ghost_amm.Config.{int, text, mapping, Entries, entries, deep_merge, get}
use ghost_amm.Config.Lookup.{HasKeysOnce, merged_at, walk, value_at, get-deep_merge}
use ghost_amm.Config.Defaults.{default_config}

abbrev override : Entries ℤ
override = entries (
    ("risk", mapping (entries (("max_drawdown_pct", int (pos 4)) ∷ [])))
    ∷ ("replay", text "off")
    ∷ [])

override-HasKeysOnce : HasKeysOnce override
unfolding HasKeysOnce
override-HasKeysOnce = (refl, (refl, tt, tt), (refl, tt, tt))

abbrev path : List String
path = "risk" ∷ "max_drawdown_pct" ∷ []

new_limit : get path (some (mapping (deep_merge default_config override))) ≡ some (int (pos 4))
unfolding get deep_merge
new_limit = refl

old_limit :
    get ("risk" ∷ "max_daily_loss_pct" ∷ []) (some (mapping (deep_merge default_config override)))
    ≡ some (int (pos 3))
unfolding get deep_merge
old_limit = refl

no_section :
    get ("replay" ∷ "order" ∷ []) (some (mapping (deep_merge default_config override))) ≡ none
unfolding get deep_merge
no_section = refl

get-deep_merge_example :
    get path (some (mapping (deep_merge default_config override)))
    ≡ merged_at (get path (some (mapping default_config))) (walk path (value_at (mapping override)))
get-deep_merge_example = get-deep_merge path default_config override override-HasKeysOnce
