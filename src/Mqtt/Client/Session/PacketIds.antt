-- ===== src/Mqtt/Client/Session/PacketIds.antt =====
-- `NextPacketIdLocked` of software_mqtt_client.cpp over a run of allocations.
use esp_modem_link.Common.{ℕ, zero, suc, ◌+◌, ◌%◌, ◌≤◌, ◌<◌, arith, ◌≡◌, ◌≢◌}
use esp_modem_link.Mqtt.Client.{Client, next_packet_id}

-- The client after `n` allocations.
pub allocations : ℕ → Client → Client
allocations zero c = c
allocations (suc n) c = (next_packet_id (allocations n c)).0

-- The id that the next allocation gives out.
pub id_after : ℕ → Client → ℕ
id_after n c = (next_packet_id (allocations n c)).1

next_packet_id_lem :
    (c : Client)
    → c.last_packet_id ≤ 0xffff
    → ((next_packet_id c).1 ≡ c.last_packet_id % 65535 + 1)
      × ((next_packet_id c).0.last_packet_id ≡ c.last_packet_id % 65535 + 1)
unfolding next_packet_id
next_packet_id_lem c h = ground arith

last_after :
    (n : ℕ) (c : Client)
    → c.last_packet_id ≤ 0xffff
    → (allocations (suc n) c).last_packet_id ≡ (c.last_packet_id + n) % 65535 + 1
unfolding allocations
last_after zero c h = omega (arith, (next_packet_id_lem c h).1)
last_after (suc n) c h =
    let before = last_after n c h in
    let step = next_packet_id_lem (allocations (suc n) c) (omega arith) in omega (arith, step.1)

id_after_lem :
    (n : ℕ) (c : Client)
    → c.last_packet_id ≤ 0xffff
    → id_after n c ≡ (c.last_packet_id + n) % 65535 + 1
unfolding id_after allocations
id_after_lem zero c h = omega (arith, (next_packet_id_lem c h).0)
id_after_lem (suc n) c h =
    let before = last_after n c h in
    omega (arith, (next_packet_id_lem (allocations (suc n) c) (omega arith)).0)

-- Packet ids are 1 to 65535, never 0, and no id comes again before 65534 others were given out.
pub id_after-distinct :
    (i j : ℕ) (c : Client)
    → c.last_packet_id ≤ 0xffff
    → i < j
    → j < i + 65535
    → (1 ≤ id_after i c) × (id_after i c ≤ 65535) × (id_after i c ≢ id_after j c)
id_after-distinct i j c h lo hi = omega (arith, id_after_lem i c h, id_after_lem j c h)
