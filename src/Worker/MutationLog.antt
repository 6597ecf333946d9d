-- ===== src/Worker/MutationLog.antt =====
-- worker/mutation-log.ts: the bounded log of mutations, a ring over a fixed array.
-- `capacity` is a configured integer (a negative one acts as 0), and versions only grow from 0,
-- so both are natural numbers.
pub mod Contents
pub mod History
use view_server.Prelude.{
  ℕ, zero, suc, String, Bool, true, false, ◌+◌, ◌-◌, ◌%◌, Option, none, some, List, [], ◌∷◌, ◌++◌,
  length, get_elem?, set, replicate, ltb, leb, ◌==◌, ◌&&◌, ◌||◌, if◌then◌else◌,
}
use view_server.Protocol.Value.{Row}
use view_server.Protocol.StableKey.{StableKey}

pub data MutationKind : Type 0 where
  inserted updated deleted : MutationKind

pub record MutationLogEntry : Type 0 where
  pub version : ℕ
  pub kind : MutationKind
  pub id : StableKey
  pub before : Option Row
  pub after : Option Row
  pub changed_fields : List String

pub record MutationLog : Type 0 where
  pub entries : List (Option MutationLogEntry)
  pub start : ℕ
  pub size : ℕ
  pub capacity : ℕ

-- the constructor
unfoldable pub new_log : ℕ → MutationLog
new_log capacity = record {
  entries = replicate capacity none;
  start = 0;
  size = 0;
  capacity = capacity;
}

-- `#physicalIndex`
abbrev pub physical_index : MutationLog → ℕ → ℕ
physical_index log logical = (log.start + logical) % log.capacity

-- An array element that was never written, or lies out of range, is `undefined`.
abbrev pub slot : Option (Option MutationLogEntry) → Option MutationLogEntry
slot none = none
slot (some entry) = entry

-- `#entryAt` at an index that is not negative.
unfoldable pub entry_at : MutationLog → ℕ → Option MutationLogEntry
entry_at log logical =
    if leb log.size logical || (log.capacity == 0)
    then none
    else slot (get_elem? log.entries (physical_index log logical))

-- `#entryAt(this.#size - 1)`: at size 0 the index is -1.
unfoldable pub last_entry : MutationLog → Option MutationLogEntry
unfolding entry_at
last_entry log = if log.size == 0 then none else entry_at log (log.size - 1)

unfoldable pub append : MutationLog → MutationLogEntry → MutationLog
append log entry =
    if log.capacity == 0
    then log
    else if ltb log.size log.capacity
    then record log {
      entries = set log.entries (physical_index log log.size) (some entry);
      size = log.size + 1;
    }
    else record log {
      entries = set log.entries log.start (some entry);
      start = (log.start + 1) % log.capacity;
    }

-- The comparison of `coversExclusive`, once both ends are read.
unfoldable pub ends_cover : Option MutationLogEntry → Option MutationLogEntry → ℕ → ℕ → Bool
ends_cover (some first) (some last) from_version to_version =
    leb first.version (from_version + 1) && leb to_version last.version
ends_cover _ _ from_version to_version = false

unfoldable pub covers_exclusive : MutationLog → ℕ → ℕ → Bool
unfolding entry_at last_entry ends_cover
covers_exclusive log from_version to_version =
    if leb to_version from_version
    then true
    else ends_cover (entry_at log 0) (last_entry log) from_version to_version

abbrev pub in_range : ℕ → ℕ → MutationLogEntry → Bool
in_range from_version to_version entry =
    ltb from_version entry.version && leb entry.version to_version

-- One round of the loop of `entriesExclusive`.
abbrev pub collect : ℕ → ℕ → Option MutationLogEntry → List MutationLogEntry → List MutationLogEntry
collect from_version to_version none rest = rest
collect from_version to_version (some entry) rest =
    if in_range from_version to_version entry then entry ∷ rest else rest

-- The loop, with the rounds that are left: it is at index `index`.
unfoldable pub entries_from : MutationLog → ℕ → ℕ → ℕ → ℕ → List MutationLogEntry
unfolding entry_at
entries_from log from_version to_version index zero = []
entries_from log from_version to_version index (suc rounds) =
    collect from_version to_version (entry_at log index)
      (entries_from log from_version to_version (index + 1) rounds)

unfoldable pub entries_exclusive : MutationLog → ℕ → ℕ → List MutationLogEntry
unfolding entries_from
entries_exclusive log from_version to_version = entries_from log from_version to_version 0 log.size
