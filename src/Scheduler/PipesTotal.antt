-- ===== src/Scheduler/PipesTotal.antt =====
-- src/threads.cpp: what comes out of the pipes over all jobs.
