-- ===== src/Signals/Events.antt =====
-- x
