-- ===== src/Websocket/Client/CloseFrame.antt =====
-- The close frames that the client writes.
use esp_modem_link.Common.{ℕ, ◌≤◌, ◌<◌, ◌+◌, ◌*◌, ◌%◌, [], ◌∷◌, bit_and, false, ◌≡◌, ◌⊎◌}
use esp_modem_link.Common.Lists.{Bytes, length, take, get_or}
use esp_modem_link.Common.Tests.{◌==◌}

-- What is shown of a reason fits a control frame, and is all of it, or is cut where a character begins.
abbrev pub Fitted : Bytes → Bytes → Type 0
Fitted reason shown =
    (length shown ≤ 123)
    × ((shown ≡ reason)
        ⊎ ((cut : ℕ) × (shown ≡ take cut reason)
            × ((cut ≡ 0) ⊎ ((bit_and (get_or reason cut 0) 0xc0 == 0x80) ≡ false))))

-- The payload of a close frame: nothing for the code that stands for no status, and otherwise the two
-- bytes of the code, the higher one first, with a reason that is fitted.
abbrev pub Closes : ℕ → Bytes → Bytes → Type 0
Closes code reason payload =
    ((code ≡ 1005) × (payload ≡ []))
    ⊎ ((high : ℕ) × (low : ℕ) × (shown : Bytes) × (payload ≡ high ∷ low ∷ shown)
        × (high * 256 + low ≡ code % 65536)
        × (low < 256)
        × Fitted reason shown)
