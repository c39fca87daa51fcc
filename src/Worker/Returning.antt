-- ===== src/Worker/Returning.antt =====
-- Where no call of the queue raises, the two readings of apps/worker/worker.py agree.
use nervora.World.{World}
use nervora.Worker.{Worker}
