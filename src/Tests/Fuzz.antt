-- ===== src/Tests/Fuzz.antt =====
-- The differential fuzzer over a ring of two slots.
use porth_core.Base.{◌≡◌, refl, arith, List, [], ◌∷◌, none}
use porth_core.Ring.{Descriptor, create}
use porth_core.Ring.Inv.{IsSize, create-IsValid}
use porth_core.Ring.Span.{contents, create-contents}
use porth_core.Fuzz.{producer, consumer, start, run, stopped, aborted, no_data}
use porth_core.Fuzz.Held.{Agrees}
use porth_core.Fuzz.Agree.{run-Agrees}
use porth_core.Fuzz.Misfire.{polite, misfires}

two-IsSize : IsSize 2
two-IsSize = record { k = 1; power = refl; small = omega arith }

abbrev packets : List Descriptor
packets = record { addr = 4096; len = 0 } ∷ record { addr = 8192; len = 1 } ∷ []

run-Agrees_example :
    let s = run 2 2 (polite packets) (start (create 2 none) packets) in
    Agrees (contents 2 s.dut) s.ref s.producer s.consumer
    × (s.consumer ≡ stopped → (s.popped_count ≡ 2) × (s.left ≡ []))
run-Agrees_example =
    run-Agrees (polite packets) (create 2 none) packets two-IsSize (create-IsValid two-IsSize)
      (create-contents 2 none)

misfires_example :
    (run 2 2
      (producer ∷ consumer ∷ consumer ∷ consumer ∷ [])
      (start (create 2 none) packets)).consumer
    ≡ aborted no_data
misfires_example =
    misfires (create 2 none) (record { addr = 4096; len = 0 })
      (record { addr = 8192; len = 1 } ∷ []) two-IsSize (omega arith) (create-IsValid two-IsSize)
      (create-contents 2 none)
