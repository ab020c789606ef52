-- ===== src/Heap.antt =====
-- The doubly linked lists that the daemon keeps everywhere: `struct packet_head` with its packets,
-- `struct session_head` with its sessions, `struct neighbor_head` with its neighbors. A node stands
-- at an address; a list's head is named by a number, such as the index of a hash bucket.
pub mod Segment
pub mod Link
mod Cases
mod Front
mod Back
pub mod Relink
pub mod Unlink
pub mod Points
pub mod Replace
use opennop.Prelude.{ℕ, ◌+◌, ◌-◌, ◌%◌, ◌^◌, Bool, ◌&&◌, Option, none, some, ◌==◌, if◌then◌else◌}
use mathlib.Core.Bool.{not}
use opennop.Prelude.Run.{Run, ok, fault, Cmd, when, ◌>>=◌, ◌>>◌}

abbrev pub Ptr : Type 0
Ptr = ℕ

abbrev pub null : Ptr
null = 0

pub record Node (A : Type 0) : Type 0 where
  pub next : Ptr
  pub prev : Ptr
  pub item : A

abbrev pub node : {A : Type 0} → Ptr → Ptr → A → Node A
node q b a = record { next = q; prev = b; item = a }

pub record Head : Type 0 where
  pub next : Ptr
  pub prev : Ptr
  pub qlen : ℕ

abbrev pub head : Ptr → Ptr → ℕ → Head
head p q n = record { next = p; prev = q; qlen = n }

abbrev pub Heap : Type 0 → Type 0
Heap A = Ptr → Option (Node A)

unfoldable pub write : {A : Type 0} → Heap A → Ptr → Option (Node A) → Heap A
write h p c a = if a == p then c else h a

unfoldable pub update : {V : Type 0} → (ℕ → V) → ℕ → V → ℕ → V
update f i v j = if j == i then v else f j

pub record Store (A : Type 0) : Type 0 where
  pub heads : ℕ → Head
  pub heap : Heap A

module _ {A : Type 0} where
  -- `*p`, a fault at NULL and at an address that holds no node.
  unfoldable pub load : Ptr → Cmd (Store A) (Node A)
  load p s = if p == null then fault else elim (s.heap p) [ none ↦ fault | some n ↦ ok n s ]

  -- The raw write: `some n` fills the address, `none` gives it back.
  abbrev pub store : Ptr → Option (Node A) → Cmd (Store A) (Unit {0})
  store p c s = ok tt (record s { heap = write s.heap p c })

  -- `p->next = q`, `p->prev = q`, and an assignment to the other fields.
  unfoldable pub set_next : Ptr → Ptr → Cmd (Store A) (Unit {0})
  unfolding load
  set_next p q = do n ← load p; store p (some (record n { next = q }))

  unfoldable pub set_prev : Ptr → Ptr → Cmd (Store A) (Unit {0})
  unfolding load
  set_prev p q = do n ← load p; store p (some (record n { prev = q }))

  unfoldable pub set_item : Ptr → A → Cmd (Store A) (Unit {0})
  unfolding load
  set_item p a = do n ← load p; store p (some (record n { item = a }))

  unfoldable pub free : Ptr → Cmd (Store A) (Unit {0})
  unfolding load
  free p = load p >> store p none

  abbrev pub get_head : ℕ → Cmd (Store A) Head
  get_head i s = ok (s.heads i) s

  abbrev pub set_head : ℕ → Head → Cmd (Store A) (Unit {0})
  set_head i hd s = ok tt (record s { heads = update s.heads i hd })

  -- The tail insertion of `queue_packet` and `insertsession`: `qlen` decides whether the list is
  -- empty, and is a `u_int32_t`.
  unfoldable pub link_tail : ℕ → Ptr → Cmd (Store A) (Unit {0})
  link_tail i p = do
    hd ← get_head i
    if hd.qlen == 0 then set_head i (record hd { next = p; prev = p }) else do
      set_prev p hd.prev
      n ← load p
      set_next n.prev p
      set_head i (record hd { prev = p })
    hd' ← get_head i
    set_head i (record hd' { qlen = (hd'.qlen + 1) % 2 ^ 32 })

  -- `clearsession`: `p` is taken out of the list of its head `i`. The four tests follow each other.
  unfoldable pub unlink_only : ℕ → Ptr → Cmd (Store A) (Unit {0})
  unlink_only i p = do
    n ← load p
    when (n.next == null && n.prev == null)
        do hd ← get_head i; set_head i (record hd { next = null; prev = null })

  unfoldable pub unlink_first : ℕ → Ptr → Cmd (Store A) (Unit {0})
  unlink_first i p = do
    n ← load p
    when (not (n.next == null) && n.prev == null)
        do set_prev n.next null; hd ← get_head i; set_head i (record hd { next = n.next })

  unfoldable pub unlink_last : ℕ → Ptr → Cmd (Store A) (Unit {0})
  unlink_last i p = do
    n ← load p
    when (n.next == null && not (n.prev == null))
        do set_next n.prev null; hd ← get_head i; set_head i (record hd { prev = n.prev })

  unfoldable pub unlink_middle : ℕ → Ptr → Cmd (Store A) (Unit {0})
  unlink_middle i p = do
    n ← load p
    when (not (n.next == null) && not (n.prev == null))
        do set_next n.prev n.next; set_prev n.next n.prev

  unfoldable pub unlink : ℕ → Ptr → Cmd (Store A) (Unit {0})
  unlink i p = do
    unlink_only i p
    unlink_first i p
    unlink_last i p
    unlink_middle i p
    hd ← get_head i
    set_head i (record hd { qlen = (hd.qlen + 2 ^ 32 - 1) % 2 ^ 32 })
