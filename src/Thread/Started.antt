-- ===== src/Thread/Started.antt =====
-- A thread that has started and entered one function, for tests.
use coldtrace.Prelude.{◌^◌, ◌<◌, refl, [], arith}
use coldtrace.Writer.Ops.{writer_init}
use coldtrace.Writer.Invariant.{IsReleased}
use coldtrace.Example.{slow, newborn}
use coldtrace.Thread.Defs.{Self, get_thread, stack_push}
use coldtrace.Thread.Bounded.{IsBounded}
use coldtrace.Thread.Sound.{IsSound}
use coldtrace.Thread.Stack.{stack_push-Pushed}
use coldtrace.Thread.Run.{get_thread-IsSound}

pub newborn-IsReleased : IsReleased newborn.io
newborn-IsReleased = record {
  maps = refl;
  pools = refl;
  blocks = refl;
  buffer = refl;
  comp_buf = refl;
}

pub ready : IsSound (get_thread newborn) [] []
ready = (get_thread-IsSound newborn refl refl refl refl newborn-IsReleased).0

-- The thread after a call from 11
abbrev pub called : Self
called = stack_push slow 11 (get_thread newborn)

pub ready_capacity : (get_thread newborn).thread.stack_capacity < 2 ^ 31
unfolding get_thread
ready_capacity = omega arith

pub called-IsSound : IsSound called [] []
called-IsSound = (stack_push-Pushed slow 11 ready ready_capacity).sound

pub called_config : called.io.world.config.trace_size < 2 ^ 62
unfolding get_thread stack_push
called_config = omega arith

pub called_offset : called.io.impl.offset < 2 ^ 62
unfolding get_thread stack_push writer_init
called_offset = omega arith

pub ready-IsBounded : IsBounded (get_thread newborn)
unfolding get_thread writer_init
ready-IsBounded = record { trace_size = omega arith; offset = omega arith }
