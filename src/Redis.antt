-- ===== src/Redis.antt =====
-- What the code sees of Redis: the client (common/database/redis.go) may not be there.

-- No client, a client whose calls fail, and one that answers.
pub data Redis : Type 0 where
  absent silent answering : Redis
