-- ===== src/Sim/Sound.antt =====
-- sim.rs: the simulation beside the machine.
use decomps_agent.Mapper.Chip.{Mapper}
use decomps_agent.Cpu.Table
use decomps_agent.Cpu.Insn.{Insn}
use decomps_agent.Sim.Machine.{Machine}
