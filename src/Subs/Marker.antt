-- ===== src/Subs/Marker.antt =====
-- `coldtrace_test_marker` of src/marker.c.
use coldtrace.Prelude.{ℕ}

-- `struct coldtrace_marker_event`
pub record MarkerEvent : Type 0 where
  pub pc : ℕ
  pub ret : ℕ

-- `publish` is `PS_PUBLISH` on the intercept chain, which subscribers handle and may change: a call that
-- leaves the sources. `pc` is `INTERPOSE_PC`.
unfoldable pub coldtrace_test_marker {ℓ} :
    {S : Type ℓ} → (publish : MarkerEvent → S → MarkerEvent × S) → (pc : ℕ) → S → ℕ × S
coldtrace_test_marker publish pc s =
    let (ev, s') = publish (record { pc = pc; ret = 0 }) s in (ev.ret, s')
