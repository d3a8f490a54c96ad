-- ===== src/Subs/Ended.antt =====
-- A thread after `coldtrace_thread_fini` of src/thread.c: what it still holds, and what the subscribers
-- then do.
use coldtrace.Sys.{Sys}
