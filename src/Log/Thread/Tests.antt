-- ===== src/Log/Thread/Tests.antt =====
-- Runs of the log thread of src/utils/src/MBT_log.c on a small ring.
use modbus_things.Base.{
  ◌<◌, ℕ, ◌≡◌, ◌≤◌, refl, true, false, some, List, [], ◌∷◌, ◌++◌, arith, length, take,
}
use modbus_things.Base.Text.{Text, codes}
use modbus_things.Log.{LogBuff}
use modbus_things.Log.Ring.{contents, waiting}
use modbus_things.Log.History.{history, IsOpen}
use modbus_things.Log.Tests.{ring, ring-IsOpen}
use modbus_things.Log.Thread.{Step, push, stop_log, async_output_log, events, async_output_log_ends}
use modbus_things.Log.Thread.Latency.{async_output_log_catches_up}

-- a line in the first sleep; the stop, between two lines, in the second
abbrev two_sleeps : List (List Step)
two_sleeps =
    (push (codes "a\n") ∷ []) ∷ (push (codes "b\n") ∷ stop_log ∷ push (codes "c\n") ∷ []) ∷ []

async_output_log_ends_example :
    (final : LogBuff) × (t : Text) × (last : LogBuff) × (async_output_log two_sleeps (ring 60)
      ≡ some (true, final))
    × (history (events two_sleeps) (ring 60) ≡ some (t, last))
    × (final.file ++ contents final ≡ ((ring 60).file ++ contents (ring 60)) ++ t)
    × (waiting final < final.min_buff_size)
async_output_log_ends_example = async_output_log_ends two_sleeps (ring 60) ring-IsOpen refl

-- the ring 950 ms after a write
abbrev late : LogBuff
late = record (ring 60) { last_duration = 950 }

late-IsOpen : IsOpen late
late-IsOpen = record {
  valid = record { start_in = omega arith; end_in = omega arith };
  on = refl;
  threshold = omega arith;
}

abbrev one_line : List (List Step)
one_line = [] ∷ (push (codes "a\n") ∷ []) ∷ []

async_output_log_catches_up_example :
    (turns : ℕ) × (t : Text) × (s' : LogBuff) × (turns ≤ length one_line)
    × (async_output_log (take turns one_line) late ≡ some (false, s'))
    × (history (events (take turns one_line)) late ≡ some (t, s'))
    × IsOpen s'
    × (contents s' ≡ [])
    × (s'.file ≡ (late.file ++ contents late) ++ t)
async_output_log_catches_up_example =
    async_output_log_catches_up one_line late late-IsOpen refl (omega arith) (omega arith)
