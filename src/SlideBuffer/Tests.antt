-- ===== src/SlideBuffer/Tests.antt =====
-- The slide buffer on small inputs.
use socket_server_lib.Prelude.{
  ◌+◌, ◌^◌, ◌≤◌, ◌≡◌, ◌↔◌, refl, true, false, none, some, List, [], ◌∷◌, arith,
}
use socket_server_lib.SlideBuffer.{SlideBuffer, IsValid, contents, new, init, enqueue}
use socket_server_lib.SlideBuffer.Fifo.{put, skip}
use socket_server_lib.SlideBuffer.Overflow.{enqueue-none_iff}
use socket_server_lib.SlideBuffer.Trace.{
  Call, write, read, forget, look, measure, wipe, status, bytes, number, done, run, call_queue,
  run_queue, run-refines,
}

-- Six bytes wait, a message of length 6 among them; two more fit.
abbrev sample : SlideBuffer
sample = record { buf = 6 ∷ 0 ∷ 0 ∷ 0 ∷ 65 ∷ 66 ∷ 1 ∷ 1 ∷ []; size = 6; capacity = 8 }

abbrev script : List Call
script =
    look
    ∷ write (7 ∷ 8 ∷ []) 2
    ∷ write (9 ∷ []) 1
    ∷ forget 4
    ∷ measure
    ∷ read (0 ∷ 0 ∷ 0 ∷ []) 3
    ∷ look
    ∷ wipe
    ∷ measure
    ∷ []

sample-IsValid : IsValid sample
sample-IsValid = omega arith

init_example : (init new 3 (some (1 ∷ 2 ∷ 3 ∷ []))).0 ≡ true
unfolding init
init_example = refl

run_queue-sample :
    run_queue 8 (contents sample) script
    ≡ number 6
      ∷ status true
      ∷ status false
      ∷ status true
      ∷ number 4
      ∷ bytes (65 ∷ 66 ∷ 7 ∷ [])
      ∷ number 0
      ∷ done
      ∷ number 0
      ∷ []
unfolding run_queue call_queue put skip
run_queue-sample = refl

run-refines_example : run sample script ≡ some (run_queue 8 (contents sample) script)
run-refines_example = run-refines script sample-IsValid (omega arith)

enqueue-none_iff_example :
    (enqueue sample (some (7 ∷ 8 ∷ 9 ∷ [])) 3 ≡ none) ↔ (2 ^ 32 ≤ 3 + sample.size)
enqueue-none_iff_example =
    enqueue-none_iff (7 ∷ 8 ∷ 9 ∷ []) 3 sample-IsValid (omega arith) (omega arith)
