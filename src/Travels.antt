-- ===== src/Travels.antt =====
-- The paths of the data through the three programs, over their connections: an event from the sensor
-- of src/sensors/sensor.cpp by way of src/proxy_main.cpp to the screen of src/head_event.cpp, and the
-- announcement of src/client_process_config.cpp by way of src/proxy_config.cpp and
-- src/proxy_register.cpp to src/head_config.cpp.
mod InOrder
mod Pipeline
mod Lines
mod Rounds
mod Ordered
mod Lossless
mod Event
mod Announcement
mod Tests
