-- ===== src/Analytics/Metrics/Drawdown.antt =====
-- `_max_drawdown` of analytics/metrics.py: the largest fall from a peak.
use mathlib.Core.Path.{subst}
use ghost_amm.Base.{
  ◌≡◌, refl, sym, ◌∙◌, ◌⊎◌, inl, inr, Option, none, some, List, [], ◌∷◌, Some, All,
}
use ghost_amm.Num.{Num, IsOrdered, IsArithmetic, dec, max, ◌-◌, ◌≼◌}
use ghost_amm.Num.Order.{max-cases, le-max_left, le-max_right}

module _ {F : Type 0} ⦃n : Num F⦄ where
  abbrev peak_of : Option F → F → F
  peak_of none value = value
  peak_of (some peak) value = max peak value

  -- The loop, from the peak and the drawdown so far.
  unfoldable pub drawdown_from : Option F → F → List F → F
  drawdown_from peak drawdown [] = drawdown
  drawdown_from peak drawdown (value ∷ values) =
      let peak' = peak_of peak value in
      drawdown_from (some peak') (max drawdown (peak' - value)) values

  unfoldable pub max_drawdown : List F → F
  max_drawdown values = drawdown_from none (dec 0 0) values

  -- No fall of a value to a later one, or to itself, exceeds the bound.
  abbrev FallsBy : F → F → List F → Type 0
  FallsBy bound value later = All (λ w. value - w ≼ bound) later

  pub HasFallsBelow : F → List F → Type 0
  HasFallsBelow bound [] = Unit
  HasFallsBelow bound (value ∷ values) =
      FallsBy bound value (value ∷ values) × HasFallsBelow bound values

  -- Some fall from a value to a later one, or to itself, is exactly this.
  pub HasFall : F → List F → Type 0
  HasFall fall [] = ⊥
  HasFall fall (value ∷ values) =
      Some (λ w. value - w ≡ fall) (value ∷ values) ⊎ HasFall fall values

module _ {F : Type 0} ⦃n : Num F⦄ (order : IsOrdered F) (laws : IsArithmetic F) where
  -- A lower value falls less.
  falls_lower :
      (low high bound : F) (values : List F)
      → low ≼ high
      → FallsBy bound high values
      → FallsBy bound low values
  falls_lower low high bound [] h k = tt
  falls_lower low high bound (w ∷ values) h (k, ks) = (
    order.le_trans _ _ _ (laws.minus_mono low high w h) k,
    falls_lower low high bound values h ks,
  )

  grows :
      (peak drawdown : F) (values : List F) → drawdown ≼ drawdown_from (some peak) drawdown values
  unfolding drawdown_from
  grows peak drawdown [] = order.le_refl drawdown
  grows peak drawdown (value ∷ values) =
      order.le_trans _ _ _ (le-max_left order drawdown (max peak value - value))
        (grows (max peak value) (max drawdown (max peak value - value)) values)

  covers :
      (peak drawdown : F) (values : List F)
      → let result = drawdown_from (some peak) drawdown values in
        FallsBy result peak values × HasFallsBelow result values
  unfolding drawdown_from HasFallsBelow
  covers peak drawdown [] = (tt, tt)
  covers peak drawdown (value ∷ values) =
      let peak' = max peak value in
      let drawdown' = max drawdown (peak' - value) in
      let result = drawdown_from (some peak') drawdown' values in
      let now : peak' - value ≼ result =
        order.le_trans _ _ _ (le-max_right order drawdown (peak' - value))
          (grows peak' drawdown' values) in
      let (later, rest) = covers peak' drawdown' values in
      let all : FallsBy result peak' (value ∷ values) = (now, later) in
      (
        falls_lower peak peak' result (value ∷ values) (le-max_left order peak value) all,
        (falls_lower value peak' result (value ∷ values) (le-max_right order peak value) all, rest),
      )

  -- A fall from the higher of two values is a fall from one of them.
  fall_of :
      (peak value fall : F) (values : List F)
      → Some (λ w. max peak value - w ≡ fall) values
      → Some (λ w. peak - w ≡ fall) values ⊎ Some (λ w. value - w ≡ fall) values
  fall_of peak value fall values s = elim (max-cases peak value) [
    | inl e ↦ inl (subst (λ x. Some (λ w. x - w ≡ fall) values) e s)
    | inr e ↦ inr (subst (λ x. Some (λ w. x - w ≡ fall) values) e s)
  ]

  attained :
      (peak drawdown : F) (values : List F)
      → let result = drawdown_from (some peak) drawdown values in
        (result ≡ drawdown) ⊎ (Some (λ w. peak - w ≡ result) values ⊎ HasFall result values)
  unfolding drawdown_from HasFall
  attained peak drawdown [] = inl refl
  attained peak drawdown (value ∷ values) =
      let peak' = max peak value in
      let result = drawdown_from (some peak') (max drawdown (peak' - value)) values in
      elim (attained peak' (max drawdown (peak' - value)) values) [
        | inl e ↦ elim (max-cases drawdown (peak' - value)) [
          | inl d ↦ inl (e ∙ d)
          | inr d ↦ elim (fall_of peak value result (value ∷ values) (inl (sym (e ∙ d)))) [
            | inl s ↦ inr (inl s)
            | inr s ↦ inr (inr (inl s))
          ]
        ]
        | inr (inl s) ↦ elim (fall_of peak value result (value ∷ values) (inr s)) [
          | inl s' ↦ inr (inl s')
          | inr s' ↦ inr (inr (inl s'))
        ]
        | inr (inr f) ↦ inr (inr (inr f))
      ]

  -- The drawdown is not negative, no later value lies further below an earlier one, and the drawdown is
  -- zero or the fall from some value to itself or a later one.
  pub max_drawdown-IsLargest :
      (values : List F)
      → (dec 0 0 ≼ max_drawdown values)
        × HasFallsBelow (max_drawdown values) values
        × ((max_drawdown values ≡ dec 0 0) ⊎ HasFall (max_drawdown values) values)
  unfolding max_drawdown drawdown_from HasFallsBelow HasFall
  max_drawdown-IsLargest [] = (order.le_refl (dec 0 0), tt, inl refl)
  max_drawdown-IsLargest (value ∷ values) =
      let start = max (dec 0 0) (value - value) in
      let most = grows value start values in
      let (later, rest) = covers value start values in
      (
        order.le_trans _ _ _ (le-max_left order (dec 0 0) (value - value)) most,
        ((order.le_trans _ _ _ (le-max_right order (dec 0 0) (value - value)) most, later), rest),
        elim (attained value start values) [
          | inl e ↦ elim (max-cases (dec 0 0) (value - value)) [
            | inl d ↦ inl (e ∙ d)
            | inr d ↦ inr (inl (inl (sym (e ∙ d))))
          ]
          | inr (inl s) ↦ inr (inl (inr s))
          | inr (inr f) ↦ inr (inr f)
        ],
      )
