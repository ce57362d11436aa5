-- ===== src/Vst/PluginState/Accepted.antt =====
-- The ids and identities that `valid_state_id` and `valid_identity` of vst-host/src/vst3_plugin_state.cpp accept,
-- spelled out. SPEC-0008 and the schemas allow only the characters [a-z0-9][a-z0-9._-]* in the ids; the code does
-- not ask for them.
use hibiki_dsp.Base.{
  ℕ, ◌≤◌, ◌≡◌, ◌≢◌, ◌⊎◌, true, false, List, [], ◌∷◌, length, All, Text, Bool-cases, inl, inr, arith,
  ◌==◌,
}
use hibiki_dsp.Devices.Catalog.{is_empty}
use hibiki_dsp.Utf8.Nul.{contains_nul}
use hibiki_dsp.Vst.PluginState.{
  StateIdentity, isxdigit, all_xdigits, has_hash_byte, valid_state_id, valid_state_identity,
}

-- One byte at least, no more than the limit, and none of them NUL.
pub record IsId (limit : ℕ) (id : Text) : Type 0 where
  pub nonempty : 1 ≤ length id
  pub limited : length id ≤ limit
  pub unterminated : All (λ c. c ≢ 0) id

-- A digit, or a letter from A to F or from a to f.
abbrev pub IsHexDigit : ℕ → Type 0
IsHexDigit c = ((48 ≤ c) × (c ≤ 57)) ⊎ ((65 ≤ c) × (c ≤ 70)) ⊎ ((97 ≤ c) × (c ≤ 102))

abbrev pub HasNonzero : List ℕ → Type 0
HasNonzero [] = ⊥
HasNonzero (b ∷ bytes) = (b ≢ 0) ⊎ HasNonzero bytes

pub record IsIdentity (identity : StateIdentity) : Type 0 where
  pub plugin : IsId 128 identity.plugin_id
  pub class_size : length identity.class_id ≡ 32
  pub class_digits : All IsHexDigit identity.class_id
  pub hashed : HasNonzero identity.module_sha256

pub contains_nul-All : (id : Text) → contains_nul id ≡ false → All (λ c. c ≢ 0) id
unfolding contains_nul
contains_nul-All [] h = tt
contains_nul-All (c ∷ id) h = ((λ e. ground arith), contains_nul-All id (ground arith))

isxdigit-IsHexDigit : (c : ℕ) → isxdigit c ≡ true → IsHexDigit c
isxdigit-IsHexDigit c h = ground arith

all_xdigits-All : (id : Text) → all_xdigits id ≡ true → All IsHexDigit id
unfolding all_xdigits
all_xdigits-All [] h = tt
all_xdigits-All (c ∷ id) h = elim (Bool-cases (isxdigit c)) [
  | inl hit ↦ (isxdigit-IsHexDigit c hit, all_xdigits-All id (rw hit at h))
  | inr miss ↦ absurd (ground arith)
]

has_hash_byte-HasNonzero : (bytes : List ℕ) → has_hash_byte bytes ≡ true → HasNonzero bytes
unfolding has_hash_byte
has_hash_byte-HasNonzero [] h = cc
has_hash_byte-HasNonzero (b ∷ bytes) h = elim (Bool-cases (b == 0)) [
  | inl zero_byte ↦ inr (has_hash_byte-HasNonzero bytes (rw zero_byte at h))
  | inr nonzero ↦ inl (λ e. ground arith)
]

pub valid_state_id-IsId : (id : Text) → valid_state_id id ≡ true → IsId 64 id
unfolding valid_state_id
valid_state_id-IsId [] h = cc
valid_state_id-IsId (c ∷ id) h = record {
  nonempty = ground arith;
  limited = ground arith;
  unterminated = contains_nul-All (c ∷ id) (ground arith);
}

pub valid_state_identity-IsIdentity :
    (identity : StateIdentity) → valid_state_identity identity ≡ true → IsIdentity identity
unfolding valid_state_identity
valid_state_identity-IsIdentity identity h = record {
  plugin = plugin_id identity.plugin_id (ground arith) (ground arith) (ground arith);
  class_size = ground arith;
  class_digits = all_xdigits-All identity.class_id (ground arith);
  hashed = has_hash_byte-HasNonzero identity.module_sha256 (ground arith);
}
  where
    plugin_id :
        (id : Text) → is_empty id ≡ false → length id ≤ 128 → contains_nul id ≡ false → IsId 128 id
    plugin_id [] e l n = cc
    plugin_id (c ∷ id) e l n = record {
      nonempty = ground arith;
      limited = l;
      unterminated = contains_nul-All (c ∷ id) n;
    }
