-- ===== src/Io/Rings/Serve.antt =====
-- The dispatcher takes the commands of a submission queue in their order, round the ring
-- (nvmev_proc_io_sq of nvmevirt/io.c).
use virtkv.Io.Rings.{Device, Command, ProcIoCmd, answer}
use virtkv.Io.Rings.Schedule.{AllWorkers, HasCallback}
use virtkv.Io.Queue.{Worker}
use virtkv.Common.{ℕ, ◌≡◌, ◌≤◌, ◌+◌, ◌-◌, ◌%◌, ◌^◌, if◌then◌else◌, zero, suc, true}

module _ {S : Type 0} (proc_io_cmd : ProcIoCmd S) (sqid : ℕ) (wallclock local_clock : ℕ → ℕ) where
  -- The commands as the host has ordered them, from the place `pos` on, are given to the namespace
  -- until one is refused or `n` are done: their number, and the state of the namespace.
  pub handle : (ℕ → Command) → ℕ → ℕ → ℕ → ℕ → S → ℕ × S
  handle sq size zero seq pos ns = (seq, ns)
  handle sq size (suc n) seq pos ns =
      let r = answer proc_io_cmd sqid wallclock local_clock seq (sq (pos % size)) ns in
      let rest = handle sq size n (suc seq) (pos + 1) r.2 in if r.0 then rest else (seq, r.2)

  -- One of the commands that are given to the namespace so makes it schedule a callback.
  pub data SchedulesCallback (sq : ℕ → Command) (size : ℕ) : ℕ → ℕ → ℕ → S → Type 0 where
    now :
        {n seq pos : ℕ} {ns : S}
        → HasCallback (answer proc_io_cmd sqid wallclock local_clock seq (sq (pos % size)) ns).3
        → SchedulesCallback sq size (suc n) seq pos ns
    then_on :
        {n seq pos : ℕ} {ns : S}
        → (answer proc_io_cmd sqid wallclock local_clock seq (sq (pos % size)) ns).0 ≡ true
        → SchedulesCallback sq size n
            (suc seq)
            (pos + 1)
            (answer proc_io_cmd sqid wallclock local_clock seq (sq (pos % size)) ns).2
        → SchedulesCallback sq size (suc n) seq pos ns

  -- A device that has come from `d` by the commands that `h` counts from `seq` on, at most `left`.
  pub record Served (d d' : Device S) (seq left : ℕ) (h : ℕ × S) : Type 0 where
    pub workers : AllWorkers d'.io_workers
    pub ns : d'.ns ≡ h.1
    pub first : seq ≤ h.0
    pub last : h.0 ≤ seq + left
    pub same_sq : d'.queue.sq ≡ d.queue.sq
    pub same_size : d'.queue.queue_size ≡ d.queue.queue_size
    pub dispatched :
        d'.queue.stat.nr_dispatched % 2 ^ 32 ≡ (d.queue.stat.nr_dispatched + (h.0 - seq)) % 2 ^ 32
    pub in_flight :
        d'.queue.stat.nr_in_flight % 2 ^ 32 ≡ (d.queue.stat.nr_in_flight + (h.0 - seq)) % 2 ^ 32
