-- ===== src/Execution/LiveGates/Settings.antt =====
-- The settings that execution/live_gates.py reads from the configuration of ghost_amm/config.py.
use ghost_amm.Base.{
  ◌≡◌, refl, sym, ap, ◌∙◌, Bool, true, false, not, Option, none, some, String, [], ◌∷◌, ◌==◌,
  string_eq, arith,
}
use ghost_amm.Base.Int.{pos, beq_ℤ}
use ghost_amm.Num.{Num, num_eq, dec}
use ghost_amm.Config.{
  Value, null, bool, int, float, text, items, mapping, no_item, item, Entries, no_entry, entry,
  deep_merge, merge_value, get,
}
use ghost_amm.Config.Lookup.{
  Found, not_set, blocked, value_at, HasKeysOnce, merged_at, walk, get-deep_merge,
}
use ghost_amm.Config.Defaults.{default_config}
use ghost_amm.Execution.LiveGates.{ExecutionConfig, GateInput, evaluate_live_order_gates}
use ghost_amm.Execution.LiveGates.Soundness.{evaluate_live_order_gates_iff}

module _ {F : Type 0} ⦃n : Num F⦄ where
  -- `bool(value)`
  unfoldable pub truthy : Value F → Bool
  truthy null = false
  truthy (bool b) = b
  truthy (int i) = not (beq_ℤ i (pos 0))
  truthy (float x) = not (x == dec 0 0)
  truthy (text s) = not (s == "")
  truthy (items no_item) = false
  truthy (items (item v vs)) = true
  truthy (mapping no_entry) = false
  truthy (mapping (entry k v d)) = true

  abbrev truthy_or : Bool → Option (Value F) → Bool
  truthy_or default none = default
  truthy_or default (some v) = truthy v

  -- The text of a setting that is compared with a text; any other value equals none.
  abbrev text_of : Option (Value F) → String
  text_of (some (text s)) = s
  text_of _ = ""

  abbrev or_default : (Value F → String) → String → Option (Value F) → String
  or_default str default none = default
  or_default str default (some v) = str v

  -- The settings of a configuration. `str` is Python's, and `clock_drift_limit_ms` the `float` of its
  -- setting.
  unfoldable pub execution_config : (Value F → String) → F → Entries F → ExecutionConfig F
  execution_config str clock_drift_limit_ms merged_data =
      let setting : String → Option (Value F) =
        λ key. get ("execution" ∷ key ∷ []) (some (mapping merged_data)) in
      record {
        mode = text_of (setting "mode");
        venue = text_of (setting "venue");
        enable_live_orders = truthy_or false (setting "enable_live_orders");
        live_env_var_name = or_default str "GHOST_AMM_ENABLE_LIVE" (setting "live_env_var_name");
        live_env_var_value = or_default str "I_ACCEPT_RISK" (setting "live_env_var_value");
        post_only_only = truthy_or true (setting "post_only_only");
        unmanaged_open_orders_present = truthy_or false (setting "unmanaged_open_orders_present");
        confirm_api_key_no_withdrawal_permission =
            truthy_or false (setting "confirm_api_key_no_withdrawal_permission");
        positive_quality_gate_passed = truthy_or false (setting "positive_quality_gate_passed");
        clock_drift_limit_ms = clock_drift_limit_ms;
      }

  -- The override itself has the setting, with a value that counts as true.
  abbrev pub TurnsOn : Entries F → String → Type 0
  TurnsOn override key =
      (v : Value F) × (walk ("execution" ∷ key ∷ []) (value_at (mapping override)) ≡ value_at v)
      × (truthy v ≡ true)

  abbrev pub ChoosesLive : Entries F → Type 0
  ChoosesLive override =
      walk ("execution" ∷ "mode" ∷ []) (value_at (mapping override)) ≡ value_at (text "live")

  merge_value-bool : (v : Value F) (b : Bool) → merge_value v (some (bool b)) ≡ v
  unfolding deep_merge
  merge_value-bool null b = refl
  merge_value-bool (bool c) b = refl
  merge_value-bool (int i) b = refl
  merge_value-bool (float x) b = refl
  merge_value-bool (text s) b = refl
  merge_value-bool (items xs) b = refl
  merge_value-bool (mapping d) b = refl

  turned_on :
      (f : Found F)
      → truthy_or false (merged_at (some (bool false)) f) ≡ true
      → (v : Value F) × (f ≡ value_at v) × (truthy v ≡ true)
  unfolding truthy
  turned_on not_set h = ground arith
  turned_on blocked h = ground arith
  turned_on (value_at v) h = (v, refl, ap truthy (sym (merge_value-bool v false)) ∙ h)

  live_text :
      (v : Value F)
      → (text_of (some (merge_value v (some (text "replay")))) == "live") ≡ true
      → v ≡ text "live"
  unfolding deep_merge
  live_text (text s) h = ap text ((string_eq.beq_iff s "live").0 h)
  live_text null h = ground arith
  live_text (bool b) h = ground arith
  live_text (int i) h = ground arith
  live_text (float x) h = ground arith
  live_text (items xs) h = ground arith
  live_text (mapping d) h = ground arith

  chosen :
      (f : Found F)
      → (text_of (merged_at (some (text "replay")) f) == "live") ≡ true
      → f ≡ value_at (text "live")
  chosen not_set h = ground arith
  chosen blocked h = ground arith
  chosen (value_at v) h = ap value_at (live_text v h)

  setting_turned_on :
      (key : String) (override : Entries F)
      → HasKeysOnce override
      → get {F = F} ("execution" ∷ key ∷ []) (some (mapping default_config)) ≡ some (bool false)
      → truthy_or false
          (get ("execution" ∷ key ∷ []) (some (mapping (deep_merge default_config override))))
        ≡ true
      → TurnsOn override key
  setting_turned_on key override once off h = turned_on _ (
      ap
        (λ o.
          truthy_or false
            (merged_at o (walk ("execution" ∷ key ∷ []) (value_at (mapping override)))))
        (sym off)
      ∙ ap (truthy_or false) (sym (get-deep_merge _ default_config override once))
      ∙ h)

  -- With the default configuration, an order goes out only if the override itself chooses the live
  -- mode, turns the live orders on, and states that the key cannot withdraw and that the quality gate
  -- was passed; the override has no key twice in a dict.
  pub live_order_needs_override :
      (str : Value F → String) (limit : F) (override : Entries F) (g : GateInput F)
      → HasKeysOnce override
      → g.config ≡ execution_config str limit (deep_merge default_config override)
      → (evaluate_live_order_gates g).allowed ≡ true
      → ChoosesLive override
        × TurnsOn override "enable_live_orders"
        × TurnsOn override "confirm_api_key_no_withdrawal_permission"
        × TurnsOn override "positive_quality_gate_passed"
  unfolding execution_config get
  live_order_needs_override str limit override g once read allowed =
      let (spec, is_open, clear) = (evaluate_live_order_gates_iff g).0 allowed in
      (
        chosen _ (
            ap (λ o. text_of o == "live")
              (sym (get-deep_merge ("execution" ∷ "mode" ∷ []) default_config override once))
            ∙ ap (λ c. c.mode == "live") (sym read)
            ∙ is_open.mode),
        setting_turned_on "enable_live_orders" override once refl
            (ap (λ c. c.enable_live_orders) (sym read) ∙ is_open.enabled),
        setting_turned_on "confirm_api_key_no_withdrawal_permission" override once refl (
            ap (λ c. c.confirm_api_key_no_withdrawal_permission) (sym read)
            ∙ is_open.no_withdrawal),
        setting_turned_on "positive_quality_gate_passed" override once refl
            (ap (λ c. c.positive_quality_gate_passed) (sym read) ∙ is_open.quality),
      )
