-- ===== src/Daemon/Spec.antt =====
-- The state of an owner process of src/owner.rs as its clients see it: which file each ID names, and
-- whether the owner has exited. Addresses, counts, counters, threads and the order of a map are
-- forgotten.
pub mod Arcs
pub mod Files
pub mod Refines
use ulockmgr.Prelude.{ℕ, ◌≡◌, Bool, true, false, Option, none, some, ◌==◌, if◌then◌else◌}
use ulockmgr.Prelude.Assoc.{Assoc, get}
use ulockmgr.Daemon.State.{FdData, DaemonOwnerInner}
use ulockmgr.Daemon.System.{System}

pub record Named : Type 0 where
  pub files : ℕ → Option ℕ
  pub exited : Bool

abbrev pub name_file : ℕ → Option ℕ → (ℕ → Option ℕ) → ℕ → Option ℕ
name_file id file files j = if id == j then file else files j

-- What may happen to it: a file is named by an ID that names none, as long as the owner has not
-- exited; an ID stops to name its file; and the owner exits when no ID names a file.
pub data Change (f : Named) : Named → Type 0 where
  stays : Change f f
  enters :
      (id file : ℕ)
      → f.files id ≡ none
      → f.exited ≡ false
      → Change f (record f { files = name_file id (some file) f.files })
  leaves :
      (id file : ℕ)
      → f.files id ≡ some file
      → Change f (record f { files = name_file id none f.files })
  exits : ((id : ℕ) → f.files id ≡ none) → Change f (record f { exited = true })

-- The descriptor of the file at an address.
unfoldable pub descriptor_at : ℕ → Assoc FdData → Option ℕ
descriptor_at a m = elim (get a m) [ none ↦ none | some x ↦ some x.descriptor ]

unfoldable pub file_of : ℕ → DaemonOwnerInner → Option ℕ
file_of id d = elim (get id d.descriptors) [ none ↦ none | some a ↦ descriptor_at a d.heap ]

abbrev pub named : DaemonOwnerInner → Named
named d = record { files = λ id. file_of id d; exited = d.exit_lock }
