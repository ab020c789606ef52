-- ===== src/Daemon/Told.antt =====
-- What a command on the daemon's state tells Netfilter, when it ends.
use opennop.Prelude.{ℕ, ◌≡◌, refl, ◌∙◌, Bool, true, false, List, if◌then◌else◌}
use opennop.Prelude.Run.{Run, ok, fault, out_of_fuel, Cmd, pure, and_then, ◌>>=◌}
use opennop.Heap.{Ptr, Store, load}
use opennop.Queue.{Packet}
use opennop.Memory
use opennop.Memory.{Memory}
use opennop.Sessions
use opennop.Sessions.{Session, Table}
use opennop.Daemon.{
  Daemon, table_run, on_table, memory_run, on_memory, original_run, on_original, on_packets,
  on_sessions, buffer_run, on_buffer,
}

-- A run that ends well has the property; a fault and a loop that does not end have none.
abbrev pub Ends : {A : Type 0} → (A → Daemon → Type 0) → Run Daemon A → Type 0
Ends Q (ok a e) = Q a e
Ends Q fault = Unit
Ends Q out_of_fuel = Unit

-- Nothing is told and nothing counted.
abbrev pub Silent : Daemon → Daemon → Type 0
Silent d e = (e.verdicts ≡ d.verdicts) × (e.metrics.packets ≡ d.metrics.packets)

abbrev pub Keeps : {A : Type 0} → Cmd Daemon A → Type 0
Keeps c = (d : Daemon) → Ends (λ a e. Silent d e) (c d)

module _ {A B : Type 0} where
  pub Ends-bind :
      (Q : A → Daemon → Type 0) (R : B → Daemon → Type 0) (r : Run Daemon A) (k : A → Cmd Daemon B)
      → Ends Q r
      → ((a : A) (e : Daemon) → Q a e → Ends R (k a e))
      → Ends R (and_then r k)
  Ends-bind Q R (ok a e) k h step = step a e h
  Ends-bind Q R fault k h step = tt
  Ends-bind Q R out_of_fuel k h step = tt

module _ {A : Type 0} where
  pub Ends-imp :
      (Q R : A → Daemon → Type 0) (r : Run Daemon A)
      → Ends Q r
      → ((a : A) (e : Daemon) → Q a e → R a e)
      → Ends R r
  Ends-imp Q R (ok a e) h step = step a e h
  Ends-imp Q R fault h step = tt
  Ends-imp Q R out_of_fuel h step = tt

  pub if-Ends :
      (Q : A → Daemon → Type 0) (b : Bool) (r r' : Run Daemon A)
      → Ends Q r
      → Ends Q r'
      → Ends Q (if b then r else r')
  if-Ends Q true r r' h h' = h
  if-Ends Q false r r' h h' = h'

  pub on_table-Keeps : (c : Cmd Table A) → Keeps (on_table c)
  on_table-Keeps c d = run_lem (c d.table)
    where
      run_lem : (r : Run Table A) → Ends (λ a e. Silent d e) (table_run d r)
      run_lem (ok a t) = (refl, refl)
      run_lem fault = tt
      run_lem out_of_fuel = tt

  pub on_sessions-Keeps : (c : Cmd (Store Session) A) → Keeps (on_sessions c)
  on_sessions-Keeps c = on_table-Keeps (Sessions.lift c)

  pub on_memory-Keeps : (c : Cmd Memory A) → Keeps (on_memory c)
  on_memory-Keeps c d = run_lem (c d.memory)
    where
      run_lem : (r : Run Memory A) → Ends (λ a e. Silent d e) (memory_run d r)
      run_lem (ok a m) = (refl, refl)
      run_lem fault = tt
      run_lem out_of_fuel = tt

  pub on_packets-Keeps : (c : Cmd (Store Packet) A) → Keeps (on_packets c)
  on_packets-Keeps c = on_memory-Keeps (Memory.lift c)

  pub on_original-Keeps : (c : Cmd (List ℕ) A) → Keeps (on_original c)
  on_original-Keeps c d = run_lem (c d.original)
    where
      run_lem : (r : Run (List ℕ) A) → Ends (λ a e. Silent d e) (original_run d r)
      run_lem (ok a p) = (refl, refl)
      run_lem fault = tt
      run_lem out_of_fuel = tt

  pub on_buffer-Keeps : (p : Ptr) (c : Cmd (List ℕ) A) → Keeps (on_buffer p c)
  unfolding on_buffer
  on_buffer-Keeps p c = on_packets-Keeps (load p >>= λ n. buffer_run p n.item (c n.item.bytes))

  pub pure-Keeps : (a : A) → Keeps (pure a)
  pure-Keeps a d = (refl, refl)

  pub if-Keeps : (b : Bool) (c c' : Cmd Daemon A) → Keeps c → Keeps c' → Keeps (if b then c else c')
  if-Keeps true c c' h h' = h
  if-Keeps false c c' h h' = h'

module _ {A B : Type 0} where
  pub bind-Keeps :
      (c : Cmd Daemon A) (k : A → Cmd Daemon B)
      → Keeps c
      → ((a : A) → Keeps (k a))
      → Keeps (c >>= k)
  bind-Keeps c k h step d =
      Ends-bind (λ a e. Silent d e) (λ b e. Silent d e) (c d) k (h d)
        (λ a e s.
          Ends-imp (λ b f. Silent e f) (λ b f. Silent d f) (k a e) (step a e)
            (λ b f u. (u.0 ∙ s.0, u.1 ∙ s.1)))

  -- A silent command first, for a relation between the states that does not notice it.
  pub bind-after :
      (R : B → Daemon → Daemon → Type 0)
      → ((b : B) (d e f : Daemon) → Silent d e → R b e f → R b d f)
      → (c : Cmd Daemon A) (k : A → Cmd Daemon B) → Keeps c
      → ((a : A) (e : Daemon) → Ends (λ b f. R b e f) (k a e))
      → (d : Daemon) → Ends (λ b f. R b d f) ((c >>= k) d)
  bind-after R stable c k h step d =
      Ends-bind (λ a e. Silent d e) (λ b f. R b d f) (c d) k (h d)
        (λ a e s.
          Ends-imp (λ b f. R b e f) (λ b f. R b d f) (k a e) (step a e)
            (λ b f r. stable b d e f s r))
