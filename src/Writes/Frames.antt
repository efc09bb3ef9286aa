-- ===== src/Writes/Frames.antt =====
-- The actions of src/core/commands.cpp and src/core/crdt.cpp that leave the accounts alone.
use somnium_db.Prelude.{ℕ, arith, refl, Option, List, Bytes}
use somnium_db.Prelude.Int.{ℤ}
use somnium_db.Aof.{AofRecord}
use somnium_db.FsUtil.{parse_u64}
use somnium_db.State.{Session, World, Version, gets, with_db, current_time_ms, nil}
use somnium_db.Access.Lookup.{Frames}
use somnium_db.Tombstones.{
  set_tomb, clear_tomb, next_version, accept_version, incoming_numbers, incoming_version, put_tomb,
  count_tombs,
}
use somnium_db.Writes.{record_access, append_aof}
use somnium_db.Commands.{append_local}

-- The actions that leave the accounts alone.
pub record_access-Frames : (key : Bytes) → Frames (record_access key)
unfolding record_access
record_access-Frames key = record { room = λ s. refl; resident = λ s. refl; in_ram = λ s. refl }

pub append_aof-Frames : (w : World) (rec : AofRecord) → Frames (append_aof w rec)
unfolding append_aof
append_aof-Frames w rec = record { room = λ s. refl; resident = λ s. refl; in_ram = λ s. refl }

pub append_local-Frames :
    (w : World) (room_name : Bytes) (args : List Bytes) (at : ℤ) (v : ℕ)
    → Frames (append_local w room_name args at v)
unfolding append_local append_aof
append_local-Frames w room_name args at v = record {
  room = λ s. refl;
  resident = λ s. refl;
  in_ram = λ s. refl;
}

pub current_time_ms-Frames : (w : World) → Frames (current_time_ms w)
unfolding current_time_ms
current_time_ms-Frames w = record { room = λ s. refl; resident = λ s. refl; in_ram = λ s. refl }

pub next_version-Frames : (now : ℤ) (v : ℕ) → Frames (next_version now v)
unfolding next_version
next_version-Frames now v = record { room = λ s. refl; resident = λ s. refl; in_ram = λ s. refl }

pub gets-Frames : {A : Type 0} (f : Session → A) → Frames (gets f)
gets-Frames f = record { room = λ s. refl; resident = λ s. refl; in_ram = λ s. refl }

pub nil-Frames : Frames nil
unfolding nil
nil-Frames = record { room = λ s. refl; resident = λ s. refl; in_ram = λ s. refl }

pub set_tomb-Frames :
    (room_name key : Bytes) (v : Version) → Frames (with_db (set_tomb room_name key v))
unfolding set_tomb put_tomb count_tombs
set_tomb-Frames room_name key v = record {
  room = λ s. refl;
  resident = λ s. ground arith;
  in_ram = λ s. ground arith;
}

pub clear_tomb-Frames : (room_name key : Bytes) → Frames (with_db (clear_tomb room_name key))
unfolding clear_tomb count_tombs
clear_tomb-Frames room_name key = record {
  room = λ s. refl;
  resident = λ s. ground arith;
  in_ram = λ s. ground arith;
}

pub incoming_numbers-Frames : (w : World) (ts from : Option ℕ) → Frames (incoming_numbers w ts from)
unfolding incoming_numbers accept_version current_time_ms
incoming_numbers-Frames w ts from = record {
  room = λ s. ground arith;
  resident = λ s. ground arith;
  in_ram = λ s. ground arith;
}

pub incoming_version-Frames : (w : World) (ts node : Bytes) → Frames (incoming_version w ts node)
unfolding incoming_version
incoming_version-Frames w ts node = incoming_numbers-Frames w (parse_u64 ts) (parse_u64 node)
