-- ===== src/Chaos/Faults/Replaced.antt =====
-- cmd/chaos/main.go: the worker processes after any steps.
