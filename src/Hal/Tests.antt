-- ===== src/Hal/Tests.antt =====
-- The theorem on the registry at a concrete input: a channel that counts how often it was asked.
use esp_modem_link.Common.{ℕ, ◌+◌, ◌≡◌, refl, true, false, some, [], ◌∷◌, ◌++◌}
use esp_modem_link.Common.Lists.{codes}
use esp_modem_link.Hal.ModuleRegistry.{ModuleEntry, found, asked, detect_module}
use esp_modem_link.Hal.ModuleRegistry.Detect.{Passed, no_entry, refuses, detect_module-first}

abbrev silent : ModuleEntry ℕ ℕ
silent = record {
  type = 0;
  name = codes "a";
  detect = some (λ n. (false, n + 1));
  create = some (some 10);
}

abbrev present : ModuleEntry ℕ ℕ
present = record {
  type = 1;
  name = codes "b";
  detect = some (λ n. (true, n + 1));
  create = some (some 20);
}

silent-Passed : Passed ℕ ℕ (silent ∷ []) 0 1
unfolding asked
silent-Passed = refuses silent [] 0 1 1 refl (no_entry 1)

present_says : asked ℕ ℕ present.detect 1 ≡ (true, 2)
unfolding asked
present_says = refl

detect_module-first_example :
    detect_module ℕ ℕ ((silent ∷ []) ++ present ∷ silent ∷ []) 0 ≡ (found 20, 2)
detect_module-first_example =
    detect_module-first ℕ ℕ (silent ∷ []) present (silent ∷ []) 0 1 2 20 silent-Passed present_says
      refl
