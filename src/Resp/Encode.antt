-- ===== src/Resp/Encode.antt =====
-- The writers of RESP commands: `encode` of src/storage/replicator.cpp, the bulks of
-- src/storage/aof_manager.cpp and `Database::bulk_string`.
use somnium_db.Prelude.{List, [], ◌∷◌, ◌++◌, Bytes, crlf, length}
use somnium_db.FsUtil.{to_string}

unfoldable pub bulk_string : Bytes → Bytes
bulk_string v = b'$' ∷ (to_string (length v) ++ (crlf ++ (v ++ crlf)))

unfoldable pub bulk_strings : List Bytes → Bytes
bulk_strings [] = []
bulk_strings (v ∷ vs) = bulk_string v ++ bulk_strings vs

unfoldable pub encode : List Bytes → Bytes
encode args = b'*' ∷ (to_string (length args) ++ (crlf ++ bulk_strings args))
