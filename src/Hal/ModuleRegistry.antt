-- ===== src/Hal/ModuleRegistry.antt =====
-- src/hal/module_registry.h and module_registry.cpp. The channel and the modules are types that are
-- parameters. A detector changes the channel, and a null function pointer is `none`; what a creator
-- gives is a module or, where it gives a null pointer, `none`.
pub mod Detect
use esp_modem_link.Common.{ℕ, Bool, true, false, Option, none, some, List, [], ◌∷◌, ◌++◌}
use esp_modem_link.Common.Lists.{Bytes, codes, length}
use esp_modem_link.Common.Tests.{◌==◌, if◌then◌else◌}
use esp_modem_link.Error.{NetworkError, not_supported_error}

module _ (Channel Module : Type 0) where
  pub record ModuleEntry : Type 0 where
    pub type : ℕ
    pub name : Bytes
    pub detect : Option (Channel → Bool × Channel)
    pub create : Option (Option Module)

  -- `null_called` is a call of a null pointer, which the language leaves undefined.
  pub data Outcome : Type 0 where
    found : Module → Outcome
    failed : NetworkError → Outcome
    null_called : Outcome

  pub register : ModuleEntry → List ModuleEntry → List ModuleEntry
  register entry entries = entries ++ entry ∷ []

  -- What the detector of an entry says.
  unfoldable pub asked : Option (Channel → Bool × Channel) → Channel → Bool × Channel
  asked none channel = (false, channel)
  asked (some detect) channel = detect channel

  -- The module of an entry that is detected, or else what the rest of the loop gives.
  pub created : Option (Option Module) → Channel → Outcome × Channel → Outcome × Channel
  created none channel rest = (null_called, channel)
  created (some none) channel rest = rest
  created (some (some hal)) channel rest = (found hal, channel)

  -- A creator is called here without a look at whether it is null.
  pub detect_module : List ModuleEntry → Channel → Outcome × Channel
  unfolding asked created
  detect_module [] channel =
      (failed (not_supported_error (codes "no compatible module detected")), channel)
  detect_module (entry ∷ entries) channel =
      let (yes', after) = asked entry.detect channel in
      let rest = detect_module entries after in
      if yes' then created entry.create after rest else rest

  -- A creator that is null is passed over here.
  pub made : Option (Option Module) → Outcome → Outcome
  made (some (some hal)) rest = found hal
  made _ rest = rest

  pub create_module : ℕ → List ModuleEntry → Outcome
  unfolding made
  create_module type [] = failed (not_supported_error (codes "module type not registered"))
  create_module type (entry ∷ entries) =
      let rest = create_module type entries in
      if entry.type == type then made entry.create rest else rest
