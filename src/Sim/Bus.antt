-- ===== src/Sim/Bus.antt =====
-- Register access through the digital twin of include/porth/PorthSimDevice.hpp: `read_reg`, `write_reg`, and the
-- flit calls that keep the TLP log. `reg` is the register that the caller passes, `offset` the number
-- that it passes for the log.
use porth_core.Base.{
  ℕ, ◌+◌, ◌-◌, ◌^◌, ◌<◌, ◌≡◌, ◌∙◌, arith, Bool, true, false, List, [], ◌∷◌, ◌++◌, append_assoc,
  Bool-cases, inl, inr, ltb, if◌then◌else◌,
}
use porth_core.Device.{Register, width}
use porth_core.Device.Mmio.{
  Memory, load_register, write_register, load-write_self, load-write_apart, overlap,
}

-- The `type` of `log_tlp`.
pub data TlpKind : Type 0 where
  read_req completion write_mem : TlpKind

-- A line of the log, without its time of day.
pub record Tlp : Type 0 where
  pub kind : TlpKind
  pub addr : ℕ
  pub payload : ℕ

-- The part of `PorthSimDevice` that these calls touch. `slept_ms` and `delays` count what they wait.
pub record Bus : Type 0 where
  pub regs : Memory
  pub bus_hang : Bool
  pub log_open : Bool
  pub tlp_log : List Tlp
  pub slept_ms : ℕ
  pub delays : ℕ

abbrev pub sim_bus_hang_ms : ℕ
sim_bus_hang_ms = 100

pub log_tlp : TlpKind → ℕ → ℕ → Bus → Bus
log_tlp kind addr val b =
    if b.log_open
    then record b { tlp_log = b.tlp_log ++ record { kind = kind; addr = addr; payload = val } ∷ [] }
    else b

-- The sleep of a hung bus, which opens every access.
pub hang : Bus → Bus
hang b = if b.bus_hang then record b { slept_ms = b.slept_ms + sim_bus_hang_ms } else b

-- `m_phy.apply_protocol_delay()`
pub delay : Bus → Bus
delay b = record b { delays = b.delays + 1 }

-- `static_cast<uint64_t>(val)`: the int32_t register extends its sign.
pub widen : Register → ℕ → ℕ
widen Register.rf_snr v = if ltb v (2 ^ 31) then v else v + (2 ^ 64 - 2 ^ 32)
widen Register.control v = v
widen _ v = v

unfoldable pub read_reg : Register → Bus → ℕ × Bus
unfolding hang delay
read_reg reg b = let b' = delay (hang b) in (load_register reg b'.regs, b')

unfoldable pub write_reg : Register → ℕ → Bus → Bus
unfolding hang delay
write_reg reg val b = let b' = delay (hang b) in record b' { regs = write_register reg val b'.regs }

unfoldable pub read_flit : Register → ℕ → Bus → ℕ × Bus
unfolding hang delay log_tlp
read_flit reg offset b =
    let b' = delay (log_tlp read_req offset 0 (hang b)) in
    let val = load_register reg b'.regs in (val, log_tlp completion offset (widen reg val) b')

unfoldable pub write_flit : Register → ℕ → ℕ → Bus → Bus
unfolding hang delay log_tlp
write_flit reg offset val b =
    let b' = delay (log_tlp write_mem offset (widen reg val) (hang b)) in
    record b' { regs = write_register reg val b'.regs }

-- What the other threads do to the registers between two calls, the physics loop's included.
abbrev pub meanwhile : (Memory → Memory) → Bus → Bus
meanwhile others b = record b { regs = others b.regs }

-- A write and a read of one register, with an open log, whatever other threads write to the region in between as long as
-- they leave that register as it is, and none of them logs or sets the bus flag: the read returns the value
-- written, and the log gains the write, the read request and the completion with that value, in this order.
-- Both accesses pay one delay, and 100 ms each if the bus hangs.
pub flit_round_trip :
    (reg : Register) (offset v : ℕ) (b : Bus) (others : Memory → Memory)
    → v < 256 ^ width reg
    → b.log_open ≡ true
    → ((m : Memory) → load_register reg (others m) ≡ load_register reg m)
    → let (got, c) = read_flit reg offset (meanwhile others (write_flit reg offset v b)) in
      (got ≡ v)
      × (c.tlp_log
          ≡ b.tlp_log
            ++ record { kind = write_mem; addr = offset; payload = widen reg v }
              ∷ record { kind = read_req; addr = offset; payload = 0 }
              ∷ record { kind = completion; addr = offset; payload = widen reg v }
              ∷ [])
      × (c.delays ≡ b.delays + 2)
      × (c.slept_ms ≡ b.slept_ms + (if b.bus_hang then 200 else 0))
unfolding read_flit write_flit
flit_round_trip reg offset v b others h logged kept =
    let back : load_register reg (others (write_register reg v b.regs)) ≡ v =
      kept (write_register reg v b.regs) ∙ load-write_self reg v b.regs h in
    elim (Bool-cases b.bus_hang) [
      | inl hung ↦ (
        ground (arith, back),
        simp (hung, logged, append_assoc, back),
        ground arith,
        ground arith,
      )
      | inr calm ↦ (
        ground (arith, back),
        simp (calm, logged, append_assoc, back),
        ground arith,
        ground arith,
      )
    ]

-- A write leaves every register with other bytes as it was, for both kinds of read, with no other thread in between.
pub writes_isolated :
    (reg other : Register) (offset v : ℕ) (b : Bus)
    → overlap reg other ≡ false
    → ((read_reg other (write_reg reg v b)).0 ≡ (read_reg other b).0)
      × ((read_flit other offset (write_flit reg offset v b)).0 ≡ (read_flit other offset b).0)
unfolding read_reg write_reg read_flit write_flit
writes_isolated reg other offset v b h = (
  ground (arith, load-write_apart reg other v b.regs h),
  ground (arith, load-write_apart reg other v b.regs h),
)
