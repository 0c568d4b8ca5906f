-- ===== src/Clock.antt =====
-- kernel/sched.c: what the clock interrupt does to the current task, and the floppy motors' timers.
pub mod Tick
use linux_0_11_learning.Base.{
  ℕ, zero, suc, ◌+◌, ◌-◌, ◌*◌, Bool, true, false, Option, none, some, List, [], ◌∷◌, ltb, leb, ◌==◌,
  ◌&&◌, ◌||◌, not, if◌then◌else◌,
}
use linux_0_11_learning.Base.Int.{ℤ, pos}
use linux_0_11_learning.Base.Bits.{test_bit, clear_bit}
use linux_0_11_learning.Task.{Task, task_interruptible}
use linux_0_11_learning.Timer.{Timers, run_timers}

-- A motor's `mon_timer` and `moff_timer`, and whether somebody waits for it.
pub record Motor : Type 0 where
  pub mon_timer : ℕ
  pub moff_timer : ℕ

-- `current_DOR`, with the motors.
pub record Floppy : Type 0 where
  pub dor : ℕ
  pub motors : List Motor

-- The loop of `do_floppy_timer` from the motor `i` on: the motors, `current_DOR`, and the motors
-- whose waiting tasks are woken. Motor `i` has the bit `i + 4` of `current_DOR`.
unfoldable pub floppy_loop : (i dor : ℕ) → List Motor → List Motor × ℕ × List ℕ
floppy_loop i dor [] = ([], dor, [])
floppy_loop i dor (m ∷ ms) =
    let (ms', dor', woken) = floppy_loop (i + 1) dor ms in
    let off = floppy_loop (i + 1) (clear_bit (i + 4) dor) ms in
    if not (test_bit (i + 4) dor)
    then (m ∷ ms', dor', woken)
    else if not (m.mon_timer == 0)
    then (
      record m { mon_timer = m.mon_timer - 1 } ∷ ms',
      dor',
      (if m.mon_timer == 1 then i ∷ woken else woken),
    )
    else if m.moff_timer == 0
    then (m ∷ off.0, off.1, off.2)
    else (record m { moff_timer = m.moff_timer - 1 } ∷ ms', dor', woken)

unfoldable pub do_floppy_timer : Floppy → Floppy × List ℕ
unfolding floppy_loop
do_floppy_timer f =
    let (ms, dor, woken) = floppy_loop 0 f.dor f.motors in
    (record { dor = dor; motors = ms }, woken)

-- What a tick reads and writes.
pub record Clock : Type 0 where
  pub current : Task
  pub beepcount : ℕ
  pub timers : Timers
  pub floppy : Floppy

-- What a tick does besides: whether the beep stops, the timers' handlers that run, the motors that
-- are waited for and ready, and whether `schedule` is called.
pub record Ticked : Type 0 where
  pub clock : Clock
  pub beep_stops : Bool
  pub ran : List ℕ
  pub ready : List ℕ
  pub schedules : Bool

-- One of the four motors runs: `current_DOR & 0xf0`
abbrev pub any_motor : ℕ → Bool
any_motor dor = test_bit 4 dor || test_bit 5 dor || test_bit 6 dor || test_bit 7 dor

-- The time goes to the user or to the system; `cpl` tells that the user's program was interrupted.
abbrev pub charge : (cpl : Bool) → Task → Task
charge cpl p = if cpl then record p { utime = p.utime + 1 } else record p { stime = p.stime + 1 }

-- `if ((--current->counter)>0) return; current->counter=0;`
abbrev pub use_up : Task → Task
use_up p = record p { counter = p.counter - 1 }

unfoldable pub do_timer : (cpl : Bool) → Clock → Ticked
unfolding run_timers do_floppy_timer
do_timer cpl c =
    let (fns, timers') = run_timers c.timers in
    let (floppy', woken) =
      if any_motor c.floppy.dor then do_floppy_timer c.floppy else (c.floppy, []) in
    record {
      clock = record {
        current = use_up (charge cpl c.current);
        beepcount = c.beepcount - 1;
        timers = timers';
        floppy = floppy';
      };
      beep_stops = c.beepcount == 1;
      ran = fns;
      ready = woken;
      schedules = cpl && leb c.current.counter 1;
    }

-- The calls that tell what the current task is.
unfoldable pub sys_getpid : Task → ℕ
sys_getpid p = p.pid

unfoldable pub sys_getppid : Task → ℕ
sys_getppid p = p.father

unfoldable pub sys_getuid : Task → ℕ
sys_getuid p = p.uid

unfoldable pub sys_geteuid : Task → ℕ
sys_geteuid p = p.euid

unfoldable pub sys_getgid : Task → ℕ
sys_getgid p = p.gid

unfoldable pub sys_getegid : Task → ℕ
sys_getegid p = p.egid

-- `sys_pause`, up to `schedule`.
unfoldable pub sys_pause : Task → Task
sys_pause p = record p { state = task_interruptible }
