-- ===== src/Hal/ModuleRegistry/Detect.antt =====
-- Which entry of the registry a detection takes.
use esp_modem_link.Common.{
  ◌≡◌, refl, ap, ◌∙◌, Bool, true, false, Option, none, some, List, [], ◌∷◌, ◌++◌,
}
use esp_modem_link.Common.Tests.{if◌then◌else◌}
use esp_modem_link.Hal.ModuleRegistry.{ModuleEntry, Outcome, found, asked, created, detect_module}

module _ (Channel Module : Type 0) where
  -- Entries none of which is taken, one after the other, with the channel before and after.
  pub data Passed : List (ModuleEntry Channel Module) → Channel → Channel → Type 0 where
    no_entry : (c : Channel) → Passed [] c c
    refuses :
        (e : ModuleEntry Channel Module) (entries : List (ModuleEntry Channel Module))
        (c d last : Channel)
        → asked Channel Module e.detect c ≡ (false, d)
        → Passed entries d last
        → Passed (e ∷ entries) c last
    gives_nothing :
        (e : ModuleEntry Channel Module) (entries : List (ModuleEntry Channel Module))
        (c d last : Channel)
        → asked Channel Module e.detect c ≡ (true, d)
        → e.create ≡ some none
        → Passed entries d last
        → Passed (e ∷ entries) c last

  turn :
      Option (Option Module)
      → List (ModuleEntry Channel Module)
      → Bool × Channel
      → Outcome Channel Module × Channel
  turn create entries (yes', after) =
      let rest = detect_module Channel Module entries after in
      if yes' then created Channel Module create after rest else rest

  detect_module-Passed :
      (before after : List (ModuleEntry Channel Module)) (c last : Channel)
      → Passed before c last
      → detect_module Channel Module (before ++ after) c ≡ detect_module Channel Module after last
  unfolding detect_module created turn
  detect_module-Passed before after c last (no_entry c') = refl
  detect_module-Passed before after c last (refuses e entries c' d last' says rest) =
      ap (turn e.create (entries ++ after)) says ∙ detect_module-Passed entries after d last rest
  detect_module-Passed before after c last (gives_nothing e entries c' d last' says nothing rest) =
      ap (turn e.create (entries ++ after)) says
      ∙ ap
          (λ (m : Option (Option Module)).
            created Channel Module m d (detect_module Channel Module (entries ++ after) d))
          nothing
      ∙ detect_module-Passed entries after d last rest

  -- A detection takes the first entry, in the order of registration, whose detector accepts and whose
  -- creator gives a module; the channel is then as that detector left it, so no detector behind it was
  -- asked.
  pub detect_module-first :
      (before : List (ModuleEntry Channel Module)) (e : ModuleEntry Channel Module)
      (behind : List (ModuleEntry Channel Module)) (c d last : Channel) (hal : Module)
      → Passed before c d
      → asked Channel Module e.detect d ≡ (true, last)
      → e.create ≡ some (some hal)
      → detect_module Channel Module (before ++ e ∷ behind) c ≡ (found hal, last)
  unfolding detect_module created turn
  detect_module-first before e behind c d last hal passed says gives =
      detect_module-Passed before (e ∷ behind) c d passed
      ∙ ap (turn e.create behind) says
      ∙ ap
          (λ (m : Option (Option Module)).
            created Channel Module m last (detect_module Channel Module behind last))
          gives
