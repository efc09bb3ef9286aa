-- ===== src/Record.antt =====
-- src/core/record.h and the cost of a record in src/core/room.h.
use somnium_db.Prelude.{ℕ, ◌+◌, Bool, ◌&&◌, [], length, Bytes}
use somnium_db.Prelude.Int.{ℤ, pos, ltb_ℤ}

pub record Record : Type 0 where
  pub value : Bytes
  pub expire_at : ℤ
  pub timestamp_ms : ℕ
  pub node_id : ℕ

-- `Record()`
abbrev pub new_record : Record
new_record = record { value = []; expire_at = pos 0; timestamp_ms = 0; node_id = 1 }

unfoldable pub expired : Record → ℤ → Bool
expired r now_ms = ltb_ℤ (pos 0) r.expire_at && ltb_ℤ r.expire_at now_ms

-- `sizeof(Record) + sizeof(std::string) + 2 * sizeof(void*)` with the 64-bit libstdc++: 56 + 32 + 16.
abbrev pub record_overhead : ℕ
record_overhead = 104

unfoldable pub record_cost : Bytes → Record → ℕ
record_cost key r = length key + length r.value + record_overhead
