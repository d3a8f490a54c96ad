-- ===== src/Example.antt =====
-- A system, a configuration and writers for tests: write(2) is interrupted on every even tick and
-- else takes one byte, LZ4 stores the bytes as they are.
use coldtrace.Prelude.{refl, ◌+◌, ◌%◌, true, false, none, some, ◌==◌, if◌then◌else◌, arith}
use coldtrace.Config.Defs.{defaults}
use coldtrace.Sys.{Sys, Fair, World, wrote, eintr}
use coldtrace.Writer.Invariant.{IsValid}
use coldtrace.Writer.Defs.{Io}
use coldtrace.Thread.Defs.{Self}

abbrev pub slow : Sys
slow = record {
  version = 77;
  main_thread = 1;
  mmap_ok = λ t. true;
  malloc_ok = λ t. true;
  mempool_ok = λ t. true;
  mempool_mem = λ t i. 0;
  open_ok = λ t. true;
  write_result = λ t n. if t % 2 == 0 then eintr else wrote 1;
  patience = 1;
  compress_bound = λ n. n + 16;
  compress = λ src capacity. some src;
}

pub slow-Fair : Fair slow
slow-Fair = record {
  wait = λ t. (t + 1) % 2;
  wait_le = λ t. omega arith;
  progress = λ t n k pos e. ground arith;
  falls = λ t n e. ground arith;
}

abbrev pub world : World
world = record {
  config = defaults;
  ticks = 0;
  files = λ t e. none;
  next_alloc_index = 0;
  next_atomic_index = 0;
  crashed = false;
}

-- A writer that `coldtrace_writer_init` has set up for thread 5.
abbrev pub idle : Io
idle = record {
  impl = record {
    initd = true;
    failed = false;
    mmapped = false;
    buffer = none;
    comp_buf = none;
    size = 0;
    offset = 0;
    tid = 5;
    enumerator = 0;
  };
  held = record { maps = 0; pools = 0; blocks = 0 };
  world = world;
}

-- The same writer with a fragment of 64 bytes that holds two words of entries.
abbrev pub half_full : Io
half_full = record {
  impl = record (idle.impl) {
    mmapped = true;
    buffer = some (λ i. 100 + i);
    comp_buf = some 92;
    size = 64;
    offset = 24;
  };
  held = record { maps = 1; pools = 0; blocks = 1 };
  world = record world { config = record defaults { trace_size = 64 } };
}

-- A thread on first use: all zero, as thread-local storage is.
abbrev pub newborn : Self
newborn = record {
  id = 5;
  thread = record {
    initd = false;
    failed = false;
    stack_bottom = 0;
    stack = λ i. 0;
    stack_size = 0;
    stack_capacity = 0;
    created_thread_idx = 0;
  };
  io = record {
    impl = record {
      initd = false;
      failed = false;
      mmapped = false;
      buffer = none;
      comp_buf = none;
      size = 0;
      offset = 0;
      tid = 0;
      enumerator = 0;
    };
    held = record { maps = 0; pools = 0; blocks = 0 };
    world = world;
  };
}

pub half_full-IsValid : IsValid half_full
half_full-IsValid = record {
  maps = refl;
  pools = refl;
  blocks = refl;
  paired = refl;
  opened = λ _. record {
    initd = refl;
    failed = refl;
    sized = omega arith;
    stamped = omega arith;
    fits = λ _. omega arith;
  };
}
