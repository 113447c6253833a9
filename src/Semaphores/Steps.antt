-- ===== src/Semaphores/Steps.antt =====
-- The balance of LAB_4's semaphores over one step of one process, while its flag is up.
use os_sp.Prelude.{ℕ, ◌+◌, ◌<◌, ◌≡◌, refl, ◌-◌, sym, ap, subst, Bool, true, false, arith}
use os_sp.Message.{Message}
use os_sp.Semaphores.{
  slots, Shared, Role, producer, consumer, Process, process, move, Act, begins, leaves, gets_slot,
  slot_interrupted, goes_on, breaks, gets_mutex, mutex_interrupted, moves, unlocks, signals,
  take_slot, give_slot, checking, waiting_slot, waiting_mutex, inside, unlocking, signalling,
  looping,
}
use os_sp.Semaphores.Invariant.{holding, reserved, unannounced, IsValid, Around, move-Around}

-- A step that leaves the queue and the three sums as they are.
keep_sums :
    (g g' : Shared) (p p' : Process) (x y z : ℕ)
    → g'.queue ≡ g.queue
    → g'.sem_mutex + holding p' ≡ g.sem_mutex + holding p
    → g'.sem_empty + reserved p' ≡ g.sem_empty + reserved p
    → g'.sem_full + unannounced p' ≡ g.sem_full + unannounced p
    → Around g p x y z
    → Around g' p' x y z
keep_sums g g' p p' x y z same m e f b = record {
  valid = subst IsValid (sym same) b.valid;
  mutex = omega (arith, b.mutex);
  room = omega (arith, b.room, ap (λ q. q.current_load) same);
  filled = omega (arith, b.filled, ap (λ q. q.current_load) same);
}

gets_slot-Around :
    (g : Shared) (r : Role) (f : Bool) (m : Message) (x y z : ℕ)
    → 0 < slots r g
    → Around g (process r f waiting_slot m) x y z
    → Around (take_slot r g) (process r f checking m) x y z
gets_slot-Around g producer f m x y z p b =
    keep_sums g (take_slot producer g) (process producer f waiting_slot m)
      (process producer f checking m) x y z refl refl (omega arith) refl b
gets_slot-Around g consumer f m x y z p b =
    keep_sums g (take_slot consumer g) (process consumer f waiting_slot m)
      (process consumer f checking m) x y z refl refl refl (omega arith) b

signals-Around :
    (g : Shared) (r : Role) (f : Bool) (m : Message) (x y z : ℕ)
    → Around g (process r f signalling m) x y z
    → Around (give_slot r g) (process r f looping m) x y z
signals-Around g producer f m x y z b =
    keep_sums g (give_slot producer g) (process producer f signalling m)
      (process producer f looping m) x y z refl refl refl (omega arith) b
signals-Around g consumer f m x y z b =
    keep_sums g (give_slot consumer g) (process consumer f signalling m)
      (process consumer f looping m) x y z refl refl (omega arith) refl b

gets_mutex-Around :
    (g : Shared) (r : Role) (f : Bool) (m : Message) (x y z : ℕ)
    → 0 < g.sem_mutex
    → Around g (process r f waiting_mutex m) x y z
    → Around (record g { sem_mutex = g.sem_mutex - 1 }) (process r f inside m) x y z
gets_mutex-Around g producer f m x y z p b =
    keep_sums g (record g { sem_mutex = g.sem_mutex - 1 }) (process producer f waiting_mutex m)
      (process producer f inside m) x y z refl (omega arith) refl refl b
gets_mutex-Around g consumer f m x y z p b =
    keep_sums g (record g { sem_mutex = g.sem_mutex - 1 }) (process consumer f waiting_mutex m)
      (process consumer f inside m) x y z refl (omega arith) refl refl b

unlocks-Around :
    (g : Shared) (r : Role) (f : Bool) (m : Message) (x y z : ℕ)
    → Around g (process r f unlocking m) x y z
    → Around (record g { sem_mutex = g.sem_mutex + 1 }) (process r f signalling m) x y z
unlocks-Around g producer f m x y z b =
    keep_sums g (record g { sem_mutex = g.sem_mutex + 1 }) (process producer f unlocking m)
      (process producer f signalling m) x y z refl (omega arith) refl refl b
unlocks-Around g consumer f m x y z b =
    keep_sums g (record g { sem_mutex = g.sem_mutex + 1 }) (process consumer f unlocking m)
      (process consumer f signalling m) x y z refl (omega arith) refl refl b

-- A process whose flag is up keeps it up and keeps the balance; the steps after a signal do not
-- arise.
pub Act-Around :
    (g g' : Shared) (p p' : Process) (x y z : ℕ)
    → Act g p g' p'
    → p.running ≡ true
    → Around g p x y z
    → (p'.running ≡ true) × Around g' p' x y z
Act-Around g _ _ _ x y z (begins _ producer m m') e b = (refl, b)
Act-Around g _ _ _ x y z (begins _ consumer m m') e b = (refl, b)
Act-Around g _ _ _ x y z (leaves _ r m) e b = absurd (ground arith)
Act-Around g _ _ _ x y z (gets_slot _ r f m p) e b = (e, gets_slot-Around g r f m x y z p b)
Act-Around g _ _ _ x y z (slot_interrupted _ r m blocks) e b = absurd (ground arith)
Act-Around g _ _ _ x y z (goes_on _ producer m) e b = (refl, b)
Act-Around g _ _ _ x y z (goes_on _ consumer m) e b = (refl, b)
Act-Around g _ _ _ x y z (breaks _ r m) e b = absurd (ground arith)
Act-Around g _ _ _ x y z (gets_mutex _ r f m p) e b = (e, gets_mutex-Around g r f m x y z p b)
Act-Around g _ _ _ x y z (mutex_interrupted _ r m blocks) e b = absurd (ground arith)
Act-Around g _ _ _ x y z (moves _ r true m) e b = (refl, move-Around g r m (move r m g).0 x y z b)
Act-Around g _ _ _ x y z (moves _ r false m) e b = absurd (ground arith)
Act-Around g _ _ _ x y z (unlocks _ r f m) e b = (e, unlocks-Around g r f m x y z b)
Act-Around g _ _ _ x y z (signals _ r f m) e b = (e, signals-Around g r f m x y z b)
