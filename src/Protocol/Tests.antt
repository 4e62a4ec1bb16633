-- ===== src/Protocol/Tests.antt =====
-- An input on which the theorem about the texts of addresses is used.
