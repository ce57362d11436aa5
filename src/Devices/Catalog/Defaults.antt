-- ===== src/Devices/Catalog/Defaults.antt =====
-- How many devices of a flow are its default.
use mathlib.Core.Path.{subst}
use hibiki_dsp.Base.{
  ℕ, ◌+◌, ◌≤◌, ◌≡◌, refl, Bool, true, false, ◌&&◌, [], ◌∷◌, ◌++◌, Option, some, if◌then◌else◌, All,
  Text, Bool-cases, inl, inr, arith,
}
use hibiki_dsp.Base.Key.{text_key}
use hibiki_dsp.Base.Entries.{update_entry, erase_entry, DistinctKeys, IsNew}
use hibiki_dsp.Devices.Catalog.{
  Device, Flow, Catalog, same_flow, has_endpoint, clear_defaults, cleared,
}

abbrev pub endpoint_of : Device → Text
endpoint_of device = device.endpoint_id

abbrev pub default_weight : Flow → Device → ℕ
default_weight flow device = if same_flow device.flow flow && device.is_default then 1 else 0

unfoldable pub default_count : Flow → Catalog → ℕ
default_count flow [] = 0
default_count flow (device ∷ s) = default_weight flow device + default_count flow s

pub default_count-append :
    (flow : Flow) (s : Catalog) (device : Device)
    → default_count flow (s ++ (device ∷ [])) ≡ default_count flow s + default_weight flow device
unfolding default_count
default_count-append flow [] device = omega arith
default_count-append flow (a ∷ s) device = omega (arith, default_count-append flow s device)

pub default_count-erase :
    (flow : Flow) (p : Device → Bool) (s : Catalog)
    → default_count flow (erase_entry p s) ≤ default_count flow s
unfolding default_count erase_entry
default_count-erase flow p [] = omega arith
default_count-erase flow p (a ∷ s) = elim (Bool-cases (p a)) [
  | inl hit ↦ rw hit (omega arith)
  | inr miss ↦ rw miss (omega (arith, default_count-erase flow p s))
]

-- A change that makes no entry a default of the flow adds none.
pub default_count-update :
    (flow : Flow) (p : Device → Bool) (f : Device → Device) (s : Catalog)
    → All (λ a. p a ≡ true → default_weight flow (f a) ≤ default_weight flow a) s
    → default_count flow (update_entry p f s) ≤ default_count flow s
unfolding default_count update_entry
default_count-update flow p f [] h = omega arith
default_count-update flow p f (a ∷ s) h = elim (Bool-cases (p a)) [
  | inl hit ↦ rw hit (omega (arith, h.0 hit))
  | inr miss ↦ rw miss (omega (arith, default_count-update flow p f s h.1))
]

pub default_count-clear :
    (flow other : Flow) (except : Option Text) (s : Catalog)
    → default_count flow (clear_defaults other except s) ≤ default_count flow s
unfolding default_count clear_defaults
default_count-clear flow other except [] = omega arith
default_count-clear flow other except (a ∷ s) =
    omega (arith, default_count-clear flow other except s, weight)
  where
    weight : default_weight flow (cleared other except a) ≤ default_weight flow a
    weight = ground arith

-- Where no device but the one of this endpoint is a default, there is at most one default.
pub default_count-sole :
    (flow : Flow) (endpoint_id : Text) (s : Catalog)
    → DistinctKeys text_key endpoint_of s
    → All (λ a. has_endpoint endpoint_id a ≡ false → default_weight flow a ≡ 0) s
    → default_count flow s ≤ 1
unfolding default_count
default_count-sole flow endpoint_id [] u h = omega arith
default_count-sole flow endpoint_id (a ∷ s) u h = elim (Bool-cases (has_endpoint endpoint_id a)) [
  | inr miss ↦ omega (arith, h.0 miss, default_count-sole flow endpoint_id s u.1 h.1)
  | inl hit ↦
      ground (arith, none_left s (moved s (text_key.beq_eq a.endpoint_id endpoint_id hit) u.0) h.1)
]
  where
    moved :
        (t : Catalog)
        → a.endpoint_id ≡ endpoint_id
        → IsNew text_key endpoint_of a.endpoint_id t
        → IsNew text_key endpoint_of endpoint_id t
    moved t same new = subst (λ x. IsNew text_key endpoint_of x t) same new

    none_left :
        (t : Catalog)
        → IsNew text_key endpoint_of endpoint_id t
        → All (λ b. has_endpoint endpoint_id b ≡ false → default_weight flow b ≡ 0) t
        → default_count flow t ≡ 0
    none_left [] new k = refl
    none_left (b ∷ t) new k = omega (arith, k.0 new.0, none_left t new.1 k.1)

-- After a clearing that exempts one endpoint, no other device is a default of the flow.
pub clear-sole :
    (flow : Flow) (endpoint_id : Text) (s : Catalog)
    → All
        (λ a. has_endpoint endpoint_id a ≡ false → default_weight flow a ≡ 0)
        (clear_defaults flow (some endpoint_id) s)
unfolding clear_defaults
clear-sole flow endpoint_id [] = tt
clear-sole flow endpoint_id (a ∷ s) = (weight, clear-sole flow endpoint_id s)
  where
    weight :
        has_endpoint endpoint_id (cleared flow (some endpoint_id) a) ≡ false
        → default_weight flow (cleared flow (some endpoint_id) a) ≡ 0
    weight h = ground arith
