-- ===== src/ThreadPool.antt =====
-- toolkit/source/poll/thread_poll.h and thread_poll.cpp: `ThreadPool`, whose workers, callers of
-- `Commit` and caller of `Release` run in any order, an access to what they share at a time. A task
-- is a number.
pub mod Family
pub mod Counts
pub mod Complete
pub mod Critical
pub mod Exclusive
pub mod Wakes
pub mod Hangs
use m_toolkit.Base.{
  ℕ, suc, ◌<◌, ◌≡◌, ◌≢◌, Bool, true, false, not, ◌&&◌, ◌||◌, List, [], ◌∷◌, ◌++◌, length, ◌==◌,
  add64, sub64,
}
use m_toolkit.Base.Maps.{update}

-- Where a worker stands in the loop of `Create`.
pub data Pc : Type 0 where
  outside : Pc  -- before it gets the lock, also inside `wait` after it was woken
  holding : Pc  -- with the lock, before the test of `wait`
  unready : Pc  -- the test was false; the lock is still held
  blocked : Pc  -- asleep in `wait`, without the lock
  ready : Pc  -- the test was true
  popping : Pc  -- the pool was open
  holds : (task : ℕ) → Pc  -- without the lock, before `--_freeSize`
  running : (task : ℕ) → Pc  -- before and during `task()`
  ran : Pc  -- before `++_freeSize`
  exited : Pc

-- How far the call of `Release` is that found the pool open.
pub data Release : Type 0 where
  not_called stored notified joined : Release

-- The members of the class, with the workers of `_pool`. `notifies` counts the callers of `Commit`
-- that have yet to call `notify_one`. `committed`, `taken` and `done` tell what happened, oldest first.
pub record System : Type 0 where
  pub mutex : Bool
  pub is_close : Bool
  pub free_size : ℕ
  pub tasks : List ℕ
  pub pc : ℕ → Pc
  pub release : Release
  pub notifies : ℕ
  pub committed : List ℕ
  pub taken : List ℕ
  pub done : List ℕ

abbrev pub empty : List ℕ → Bool
empty [] = true
empty (_ ∷ _) = false

-- The constructor. An index from the size on names no worker.
unfoldable pub create : (size : ℕ) → System
create size = record {
  mutex = false;
  is_close = false;
  free_size = size;
  tasks = [];
  pc = λ _. outside;
  release = not_called;
  notifies = 0;
  committed = [];
  taken = [];
  done = [];
}

unfoldable pub is_complete : (size : ℕ) → System → Bool
is_complete size s = empty s.tasks && s.free_size == size

unfoldable pub task_size : System → ℕ
task_size s = length s.tasks

-- What `wait` tests.
abbrev pub stirs : System → Bool
stirs s = not (empty s.tasks) || s.is_close

abbrev pub wake : Pc → Pc
wake blocked = outside
wake p = p

-- One access of worker `i`, from where it stands.
pub data Move (i : ℕ) (s : System) : Pc → System → Type 0 where
  locks : s.mutex ≡ false → Move i s outside (record s { mutex = true; pc = update s.pc i holding })
  finds : stirs s ≡ true → Move i s holding (record s { pc = update s.pc i ready })
  misses : stirs s ≡ false → Move i s holding (record s { pc = update s.pc i unready })
  sleeps : Move i s unready (record s { mutex = false; pc = update s.pc i blocked })
  leaves :
      s.is_close ≡ true → Move i s ready (record s { mutex = false; pc = update s.pc i exited })
  stays : s.is_close ≡ false → Move i s ready (record s { pc = update s.pc i popping })
  pops :
      (task : ℕ) (rest : List ℕ)
      → s.tasks ≡ task ∷ rest
      → Move i s popping (record s {
        tasks = rest;
        taken = s.taken ++ task ∷ [];
        mutex = false;
        pc = update s.pc i (holds task);
      })
  counts :
      (task : ℕ)
      → Move i s
          (holds task)
          (record s { free_size = sub64 s.free_size 1; pc = update s.pc i (running task) })
  runs :
      (task : ℕ)
      → Move i s (running task) (record s { done = s.done ++ task ∷ []; pc = update s.pc i ran })
  returns : Move i s ran (record s { free_size = add64 s.free_size 1; pc = update s.pc i outside })
  -- `wait` may also return without a call of notify.
  stirred : Move i s blocked (record s { pc = update s.pc i outside })

-- One step of a pool of `size` workers.
pub data Step (size : ℕ) (s : System) : System → Type 0 where
  works : (i : ℕ) {t : System} → i < size → Move i s (s.pc i) t → Step size s t
  -- `Commit`: the push under the lock, then `notify_one`, which wakes some worker that sleeps.
  commits :
      (task : ℕ)
      → s.mutex ≡ false
      → Step size s (record s {
        tasks = s.tasks ++ task ∷ [];
        committed = s.committed ++ task ∷ [];
        notifies = suc s.notifies;
      })
  notifies_one :
      (i k : ℕ)
      → i < size
      → s.pc i ≡ blocked
      → s.notifies ≡ suc k
      → Step size s (record s { notifies = k; pc = update s.pc i outside })
  notifies_none :
      (k : ℕ)
      → ((i : ℕ) → i < size → s.pc i ≢ blocked)
      → s.notifies ≡ suc k
      → Step size s (record s { notifies = k })
  -- `Release`, which does not take the lock
  closes :
      s.release ≡ not_called
      → s.is_close ≡ false
      → Step size s (record s { is_close = true; release = stored })
  notifies_all :
      s.release ≡ stored → Step size s (record s { release = notified; pc = λ i. wake (s.pc i) })
  joins :
      s.release ≡ notified
      → ((i : ℕ) → i < size → s.pc i ≡ exited)
      → Step size s (record s { release = joined })

pub data Reach (size : ℕ) : System → Type 0 where
  begins : Reach size (create size)
  goes : {s t : System} → Reach size s → Step size s t → Reach size t
