-- ===== src/Target/Child.antt =====
-- internal/redisutil/redisutil.go: a child process that gets the flags of Args.
use dist_tasks_go.Target.{Target}
