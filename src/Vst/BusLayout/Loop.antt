-- ===== src/Vst/BusLayout/Loop.antt =====
-- What the loop over the buses of one direction accepts.
use mathlib.Core.Path.{subst}
use hibiki_dsp.Base.{
  ℕ, zero, suc, ◌+◌, ◌≤◌, ◌<◌, ◌≡◌, refl, ap, ◌∙◌, Bool, true, List, [], ◌∷◌, take, drop, All,
  arith,
}
use hibiki_dsp.Vst.BusLayout.{
  AudioBus, Tally, is_valid, max_total_channels, tally_bus, validate_buses,
}
use hibiki_dsp.Vst.BusLayout.Step.{
  IsBlank, IsExtra, sum_channels, so_far, blank-forth, blank-back, extra-forth, extra-back,
}

module _ (count : ℕ) (input : Bool) where
  -- The answer of the loop from a tally on, and that it is valid.
  abbrev pub Accepts : ℕ → Tally → List AudioBus → Type 0
  Accepts index tally buses = is_valid (validate_buses count input index tally buses).result ≡ true

  abbrev Steps : ℕ → Tally → AudioBus → Type 0
  Steps index tally bus = is_valid (tally_bus count input index tally bus).result ≡ true

  pub step_accepted :
      (index : ℕ) (tally : Tally) (bus : AudioBus) (buses : List AudioBus)
      → Accepts index tally (bus ∷ buses)
      → Steps index tally bus
  unfolding validate_buses
  step_accepted index tally bus buses h = ground arith

  pub after_step :
      (index : ℕ) (tally : Tally) (total mains : ℕ) (bus : AudioBus) (buses : List AudioBus)
      → tally_bus count input index tally bus ≡ so_far total mains
      → validate_buses count input index tally (bus ∷ buses)
        ≡ validate_buses count input (suc index) (so_far total mains) buses
  unfolding validate_buses
  after_step index tally total mains bus buses e = rw e

  rest_step :
      (index total mains : ℕ) (bus : AudioBus) (buses : List AudioBus)
      → count ≤ index
      → IsBlank bus
      → validate_buses count input index (so_far total mains) (bus ∷ buses)
        ≡ validate_buses count input (suc index) (so_far total mains) buses
  rest_step index total mains bus buses h v =
      after_step index (so_far total mains) total mains bus buses
        (blank-back input count index total mains bus.role bus.active bus.reserved bus.channels h v)

  extra_step :
      (index total mains : ℕ) (bus : AudioBus) (buses : List AudioBus)
      → suc index < count
      → IsExtra input bus
      → total + bus.channels ≤ max_total_channels
      → validate_buses count input (suc index) (so_far total mains) (bus ∷ buses)
        ≡ validate_buses count input (suc (suc index)) (so_far (total + bus.channels) mains) buses
  extra_step index total mains bus buses h v fits =
      after_step (suc index) (so_far total mains) (total + bus.channels) mains bus buses (
        extra-back input count index total mains bus.role bus.active bus.reserved bus.channels h v
          fits)

  -- Behind the declared buses all are blank.
  pub rest-forth :
      (index total mains : ℕ) (buses : List AudioBus)
      → count ≤ index
      → Accepts index (so_far total mains) buses
      → All IsBlank buses
  rest-forth index total mains [] h e = tt
  rest-forth index total mains (bus ∷ buses) h e =
      let v : IsBlank bus =
        blank-forth input count index total mains bus.role bus.active bus.reserved bus.channels h
          (step_accepted index _ bus buses e) in
      (
        v,
        rest-forth (suc index) total mains buses (omega arith)
            (subst (λ t. is_valid t.result ≡ true) (rest_step index total mains bus buses h v) e),
      )

  pub rest-back :
      (index total mains : ℕ) (buses : List AudioBus)
      → count ≤ index
      → All IsBlank buses
      → validate_buses count input index (so_far total mains) buses ≡ so_far total mains
  unfolding validate_buses
  rest-back index total mains [] h v = refl
  rest-back index total mains (bus ∷ buses) h v =
      rest_step index total mains bus buses h v.0
      ∙ rest-back (suc index) total mains buses (omega arith) v.1

  -- Behind the first bus.
  pub extras-forth :
      (n index total mains : ℕ) (buses : List AudioBus)
      → count ≡ suc index + n
      → total ≤ max_total_channels
      → Accepts (suc index) (so_far total mains) buses
      → All (IsExtra input) (take n buses)
        × All IsBlank (drop n buses)
        × (total + sum_channels (take n buses) ≤ max_total_channels)
  extras-forth zero index total mains buses h room e =
      (tt, rest-forth (suc index) total mains buses (omega arith) e, omega arith)
  extras-forth (suc n) index total mains [] h room e = (tt, tt, omega arith)
  extras-forth (suc n) index total mains (bus ∷ buses) h room e =
      let (v, fits) =
        extra-forth input count index total mains bus.role bus.active bus.reserved bus.channels
          (omega arith) (step_accepted (suc index) _ bus buses e) in
      let (extras, blanks, within) =
        extras-forth n (suc index) (total + bus.channels) mains buses (omega arith) fits (
          subst (λ t. is_valid t.result ≡ true)
            (extra_step index total mains bus buses (omega arith) v fits) e) in
      ((v, extras), blanks, omega arith)

  pub extras-back :
      (n index total mains : ℕ) (buses : List AudioBus)
      → count ≡ suc index + n
      → All (IsExtra input) (take n buses)
      → All IsBlank (drop n buses)
      → total + sum_channels (take n buses) ≤ max_total_channels
      → validate_buses count input (suc index) (so_far total mains) buses
        ≡ so_far (total + sum_channels (take n buses)) mains
  unfolding validate_buses
  extras-back zero index total mains buses h v blanks within =
      rest-back (suc index) total mains buses (omega arith) blanks
      ∙ ap (λ t. so_far t mains) (omega arith)
  extras-back (suc n) index total mains [] h v blanks within =
      ap (λ t. so_far t mains) (omega arith)
  extras-back (suc n) index total mains (bus ∷ buses) h v blanks within =
      extra_step index total mains bus buses (omega arith) v.0 (omega arith)
      ∙ extras-back n (suc index) (total + bus.channels) mains buses (omega arith) v.1 blanks
          (omega arith)
      ∙ ap (λ t. so_far t mains) (omega arith)
