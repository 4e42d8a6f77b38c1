-- ===== src/Events/Consuming/Delivered.antt =====
-- Which events a call of `consume_events` passes on.
