-- ===== src/Thread/Tests.antt =====
-- Runs of a thread from its first event.
use coldtrace.Prelude.{◌⊎◌, none, true, false, ◌≡◌, refl, [], arith, take, if◌then◌else◌, ◌-◌}
use coldtrace.Entry.Kind
use coldtrace.Example.{slow, newborn}
use coldtrace.Thread.Defs.{stack_push, get_thread, stack_pop, thread_append}
use coldtrace.Sys.{Sys}
use coldtrace.Thread.Loss.{thread_append-none}
use coldtrace.Entry.Kind.{is_type_valid, with_stack}
use coldtrace.Writer.Ops.{writer_init, writer_reserve, ensure_buffer}
use coldtrace.Entry.Layout.{fixed_size}
use coldtrace.Writer.Defs.{validate_trace_size}
use coldtrace.Thread.Sound.{is_on, IsSound, calls}
use coldtrace.Thread.Append.{Appended}
use coldtrace.Thread.Stack.{Pushed, stack_push-Pushed, stack_pop-calls}
use coldtrace.Thread.Run.{thread_append-Appended, get_thread-IsSound}
use coldtrace.Thread.Started.{
  newborn-IsReleased, ready, called, ready_capacity, called-IsSound, called_config, called_offset,
}

get_thread-IsSound_example :
    IsSound (get_thread newborn) [] []
    × (calls (get_thread newborn) ≡ [])
    × (is_on (get_thread newborn).io ≡ true)
    × ((get_thread newborn).io.impl.tid ≡ newborn.id)
    × (get_thread (get_thread newborn) ≡ get_thread newborn)
get_thread-IsSound_example = get_thread-IsSound newborn refl refl refl refl newborn-IsReleased

stack_push-Pushed_example : Pushed 11 (get_thread newborn) [] [] called
stack_push-Pushed_example = stack_push-Pushed slow 11 ready ready_capacity

stack_pop-calls_example :
    IsSound (stack_pop called) [] []
    × (calls (stack_pop called) ≡ (
        if called.thread.failed
        then calls called
        else take (called.thread.stack_size - 1) (calls called)))
stack_pop-calls_example = stack_pop-calls called-IsSound

thread_append-Appended_example :
    Appended called Kind.read 0xab [] (thread_append slow Kind.read 0xab called)
thread_append-Appended_example =
    thread_append-Appended slow called-IsSound Kind.read 0xab (omega arith) called_config
      called_offset

-- A system that has no memory to map
abbrev full : Sys
full = record slow { mmap_ok = λ t. false }

no_place : (thread_append full Kind.read 0xab called).0 ≡ none
unfolding get_thread stack_push thread_append writer_init fixed_size is_type_valid with_stack
    writer_reserve ensure_buffer validate_trace_size
no_place = refl

enabled : called.io.world.config.disable_writes ≡ false
unfolding get_thread stack_push
enabled = refl

thread_append-none_example :
    (called.thread.failed ≡ true)
    ⊎ (is_type_valid Kind.read ≡ false)
    ⊎ (is_on (thread_append full Kind.read 0xab called).1.io ≡ false)
thread_append-none_example =
    thread_append-none full called-IsSound Kind.read 0xab (omega arith) enabled no_place
