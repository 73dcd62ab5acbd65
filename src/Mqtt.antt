-- ===== src/Mqtt.antt =====
-- MQTT 3.1.1 over a TCP connection: the wire format (`Packet`, from src/protocol/mqtt/mqtt_packet.cpp)
-- and the client that speaks it (`Client`, from src/protocol/mqtt/software_mqtt_client.cpp).
pub mod Packet
mod Tests
pub mod Client
