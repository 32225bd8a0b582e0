-- ===== src/Demo/Main/Ends.antt =====
-- How the demonstration ends: what it gives back on every way out of `main`, and what it has measured.
use porth_core.Base.{ℕ, ◌≡◌, ◌≢◌, ◌⊎◌, Option, some, List, [], ◌∷◌}
use porth_core.Device.{Device}
use porth_core.Resource.{Resource, Event, settle}
use porth_core.HugePage.{mlock_failed}
use porth_core.Ring.{Ring}
use porth_core.Shuttle
use porth_core.Shuttle.Address.{Pointers}
use porth_core.Driver
use porth_core.Driver.{Driver, set_stats_link}
use porth_core.Demo.Main.{World, Ending, no_driver, exit_code, main}
use porth_core.Demo.Main.Measures.{Leaves, Measured, left_by}

-- What is relied on of the system calls and of libxdp: none of the pointers that they hand out is null, and the
-- statistics' page can be mapped once it is there.
pub record Answers (w : World) : Type 0 where
  pub some_umem : w.umem ≢ some 0
  pub some_socket : w.xsk ≢ some 0
  pub hub_page : ℕ
  pub hub_maps : w.hub.mmap ≡ some hub_page
  pub hub_some : hub_page ≢ 0
  pub pages : Pointers (λ p. p ≢ 0) w.pages

-- How the part inside the back-end's life ends.
record Within (w : World) (out : Option (List Event × Ending × Device)) : Type 0 where
  events : List Event
  how : Ending
  result : out ≡ some (events, how, left_by how w.regs)
  held :
      ((settle events [] ≡ some []) × Leaves how [])
      ⊎ ((r : Resource) × (how ≡ no_driver mlock_failed) × (settle events [] ≡ some (r ∷ [])))
  right : Measured w how

-- How the demonstration ends: it comes to its end, with the exit code of the way that it takes; of all that was
-- acquired is left what `Leaves` says; and its measurement is right.
pub record Ended (w : World) : Type 0 where
  pub how : Ending
  pub events : List Event
  pub held : List Resource
  pub result : main w ≡ some (exit_code how, events, how, left_by how w.regs)
  pub settled : settle events [] ≡ some held
  pub leaves : Leaves how held
  pub right : Measured w how
