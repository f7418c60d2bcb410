-- ===== src/Settings/Types.antt =====
-- The data of src/kanibako/settings_resolve.py, and functions that return, raise or loop.
use kanibako.Prelude.{ℕ, ◌≡◌, refl, Bool, true, false, if◌then◌else◌, Option, List, Text, text}
use kanibako.Prelude.Dict.{Dict}

abbrev pub guest_home : Text
guest_home = text "/home/agent"

abbrev pub max_ref_depth : ℕ
max_ref_depth = 64

-- One constructor for each message of `SettingsError`; the text that a message quotes is its field.
pub data SettingsError : Type 0 where
  malformed_variable unterminated_brace malformed_ref : Text → SettingsError
  unset_variable unknown_variable unknown_ref : Text → SettingsError
  cyclic_ref : List Text → SettingsError
  depth_cap : Text → SettingsError
  share_without_colon seed_without_colon : Text → Text → SettingsError
  unresolvable_path : Text → SettingsError

-- What a call does: it returns, it raises, or it outlives the fuel of its loop.
pub data Outcome {ℓ} (A : Type ℓ) : Type ℓ where
  returned : A → Outcome A
  raised : SettingsError → Outcome A
  out_of_fuel : Outcome A

infixl 5 ◌>>=◌
abbrev pub ◌>>=◌ {ℓ κ} : {A : Type ℓ} {B : Type κ} → Outcome A → (A → Outcome B) → Outcome B
returned a >>= f = f a
raised e >>= f = raised e
out_of_fuel >>= f = out_of_fuel

-- The call ends.
abbrev pub Ends {ℓ} : {A : Type ℓ} → Outcome A → Type 0
Ends (returned a) = Unit
Ends (raised e) = Unit
Ends out_of_fuel = ⊥

pub Ends-bind {ℓ κ} :
    {A : Type ℓ} {B : Type κ} (m : Outcome A) (f : A → Outcome B)
    → Ends m
    → ((a : A) → m ≡ returned a → Ends (f a))
    → Ends (m >>= f)
Ends-bind (returned a) f h k = k a refl
Ends-bind (raised e) f h k = tt
Ends-bind out_of_fuel f h k = h

pub Ends-if {ℓ} :
    {A : Type ℓ} (b : Bool) (m n : Outcome A) → Ends m → Ends n → Ends (if b then m else n)
Ends-if true m n h k = h
Ends-if false m n h k = k

pub bind-returned {ℓ κ} :
    {A : Type ℓ} {B : Type κ} (m : Outcome A) (f : A → Outcome B) {b : B}
    → (m >>= f) ≡ returned b
    → (a : A) × (m ≡ returned a) × (f a ≡ returned b)
bind-returned (returned a) f h = (a, refl, h)
bind-returned (raised e) f h = cc
bind-returned out_of_fuel f h = cc

pub data Space : Type 0 where
  host guest : Space

pub record ResolveCtx : Type 0 where
  pub crab_name : Option Text
  pub workset_name : Option Text
  pub host_home : Text
  pub xdg : Dict Text Text

pub record LevelView : Type 0 where
  pub name : Text
  pub values : Dict Text Text
  pub defaults : Dict Text Text

pub record ResolvedValue : Type 0 where
  pub value : Text
  pub level : Text
  pub is_default : Bool
  pub terminal : Bool

-- The callback that resolves a reference, given the chain of references that led to it.
abbrev pub Lookup : Type 0
Lookup = Text → List Text → Outcome Text
