-- ===== src/Devices/Catalog/Writes.antt =====
-- What a well-formed catalog is, and how writing and clearing keep it.
use mathlib.Core.Path.{subst}
use hibiki_dsp.Base.{
  ◌≤◌, ◌≡◌, refl, sym, true, false, Option, some, length, All, Text, Bool-cases, inl, inr, arith,
}
use hibiki_dsp.Base.Key.{text_key}
use hibiki_dsp.Base.Entries.{update_entry, DistinctKeys, length-update_entry, DistinctKeys-update}
use hibiki_dsp.Base.Entries.Map.{length-map, All-map, All-update_entry_at, DistinctKeys-map}
use hibiki_dsp.Devices.Catalog.{
  Device, Flow, render, capture, Catalog, catalog_capacity, valid_device, same_flow, has_endpoint,
  clear_defaults, clear_others, cleared,
}
use hibiki_dsp.Devices.Catalog.Defaults.{
  endpoint_of, default_weight, default_count, default_count-clear, default_count-sole, clear-sole,
}

pub same_flow-eq : (x y : Flow) → same_flow x y ≡ true → x ≡ y
same_flow-eq render render h = refl
same_flow-eq render capture h = cc
same_flow-eq capture render h = cc
same_flow-eq capture capture h = refl

pub same_flow-apart :
    (x y z : Flow) → same_flow x y ≡ true → same_flow y z ≡ false → same_flow x z ≡ false
same_flow-apart x y z same apart =
    subst (λ w. same_flow w z ≡ false) (sym (same_flow-eq x y same)) apart

-- All of the invariant but the defaults.
pub record HasDevices (catalog : Catalog) : Type 0 where
  pub bounded : length catalog ≤ catalog_capacity
  pub entries : All (λ a. valid_device a ≡ true) catalog
  pub distinct : DistinctKeys text_key endpoint_of catalog

pub record IsCatalog (catalog : Catalog) : Type 0 where
  pub devices : HasDevices catalog
  pub one_default : (flow : Flow) → default_count flow catalog ≤ 1

pub update-HasDevices :
    (endpoint_id : Text) (f : Device → Device) (s : Catalog)
    → ((a : Device) → has_endpoint endpoint_id a ≡ true → (f a).endpoint_id ≡ endpoint_id)
    → All (λ a. has_endpoint endpoint_id a ≡ true → valid_device (f a) ≡ true) s
    → HasDevices s
    → HasDevices (update_entry (has_endpoint endpoint_id) f s)
update-HasDevices endpoint_id f s same keep v = record {
  bounded = omega (arith, length-update_entry (has_endpoint endpoint_id) f s, v.bounded);
  entries = All-update_entry_at _ (has_endpoint endpoint_id) f s keep v.entries;
  distinct = DistinctKeys-update text_key endpoint_of endpoint_id f s same v.distinct;
}

pub clear-HasDevices :
    (flow : Flow) (except : Option Text) (s : Catalog)
    → HasDevices s
    → HasDevices (clear_defaults flow except s)
unfolding clear_defaults valid_device
clear-HasDevices flow except s v = record {
  bounded = omega (arith, length-map (cleared flow except) s, v.bounded);
  entries = All-map _ (cleared flow except) s (λ a h. ground arith) v.entries;
  distinct =
      DistinctKeys-map text_key endpoint_of (cleared flow except) s (λ a. ground arith) v.distinct;
}

pub clear_others-HasDevices :
    (device : Device) (s : Catalog) → HasDevices s → HasDevices (clear_others device s)
clear_others-HasDevices device s v = elim (Bool-cases device.is_default) [
  | inl e ↦ rw e (clear-HasDevices device.flow (some device.endpoint_id) s v)
  | inr e ↦ rw e v
]

-- After the others of its flow are cleared, a written device leaves at most one default.
pub clear_others-one_default :
    (device : Device) (s : Catalog) (flow : Flow)
    → HasDevices s
    → (default_weight flow device ≡ 0 → default_count flow s ≤ 1)
    → default_count flow (clear_others device s) ≤ 1
clear_others-one_default device s flow v h = elim (Bool-cases device.is_default) [
  | inr e ↦ rw e (h (rw e (ground arith)))
  | inl e ↦ rw e (elim (Bool-cases (same_flow device.flow flow)) [
    | inl here ↦
        subst (λ x. default_count flow (clear_defaults x (some device.endpoint_id) s) ≤ 1)
          (sym (same_flow-eq device.flow flow here))
          (default_count-sole flow device.endpoint_id _
            (clear-HasDevices flow (some device.endpoint_id) s v).distinct
            (clear-sole flow device.endpoint_id s))
    | inr elsewhere ↦ omega (
      arith,
      default_count-clear flow device.flow (some device.endpoint_id) s,
      h (rw elsewhere refl),
    )
  ])
]
